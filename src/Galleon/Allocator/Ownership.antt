-- ===== src/Galleon/Allocator/Ownership.antt =====
-- Who owns a cluster: the runs of all files together, and the invariant of the allocator.
use prisma_os.Base.{
  ℕ, ◌+◌, ◌≤◌, ◌<◌, ◌≡◌, ◌^◌, refl, inl, inr, List, [], ◌∷◌, ◌==◌, if◌then◌else◌, arith, Bool-cases,
  some,
}
use prisma_os.Galleon.RunList.{RunList, covers_all, sum_counts, All, IsRunList}
use prisma_os.Galleon.RunList
use prisma_os.Galleon.Scan.{free_at}
use prisma_os.Galleon.Bitmap.Marking.{Loaded}
use prisma_os.Galleon.Allocator.{RunMap, lookup, insert, remove, or_new, ClusterAllocator}

-- How often the runs of all files hold a cluster.
abbrev pub covers_files : RunMap → ℕ → ℕ
covers_files [] c = 0
covers_files ((k, l) ∷ m) c = covers_all l.runs c + covers_files m c

abbrev pub AllLists : RunMap → Type 0
AllLists [] = Unit
AllLists ((k, l) ∷ m) = IsRunList l × AllLists m

-- The bitmap is loaded; every list is well formed; a cluster is free, or in one run of one file,
-- and not both; no file owns a cluster outside the volume.
pub record IsConsistent {Disk : Type 0} (a : ClusterAllocator Disk) (bitmap : List ℕ) : Type 0 where
  pub loaded : Loaded a.volume bitmap
  pub small : a.volume.bitmap.total_clusters < 2 ^ 64
  pub lists : AllLists a.allocated_runs
  pub owned : (c : ℕ) → covers_files a.allocated_runs c + (if free_at bitmap c then 1 else 0) ≤ 1
  pub inside : (c : ℕ) → a.volume.bitmap.total_clusters ≤ c → covers_files a.allocated_runs c ≡ 0

pub covers_files-lookup :
    (k : ℕ) (m : RunMap) (c : ℕ)
    → covers_files m c ≡ covers_all (or_new (lookup k m)).runs c + covers_files (remove k m) c
unfolding lookup remove RunList.new
covers_files-lookup k [] c = refl
covers_files-lookup k ((j, l) ∷ m) c = elim (Bool-cases (j == k)) [
  | inl e ↦ rw e refl
  | inr e ↦ rw e (omega (arith, covers_files-lookup k m c))
]

pub covers_files-insert :
    (k : ℕ) (l : RunList) (m : RunMap) (c : ℕ)
    → covers_files (insert k l m) c ≡ covers_all l.runs c + covers_files (remove k m) c
unfolding insert remove
covers_files-insert k l [] c = refl
covers_files-insert k l ((j, l') ∷ m) c = elim (Bool-cases (j == k)) [
  | inl e ↦ rw e refl
  | inr e ↦ rw e (omega (arith, covers_files-insert k l m c))
]

pub lookup-insert :
    (k j : ℕ) (l : RunList) (m : RunMap)
    → lookup j (insert k l m) ≡ (if k == j then some l else lookup j m)
unfolding lookup insert
lookup-insert k j l [] = refl
lookup-insert k j l ((i, l') ∷ m) = ground (arith, lookup-insert k j l m)

pub new-IsRunList : IsRunList RunList.new
unfolding RunList.new
new-IsRunList = record { proper = tt; counted = refl }

pub lookup-IsRunList : (k : ℕ) (m : RunMap) → AllLists m → IsRunList (or_new (lookup k m))
unfolding lookup
lookup-IsRunList k [] v = new-IsRunList
lookup-IsRunList k ((j, l) ∷ m) v = elim (Bool-cases (j == k)) [
  | inl e ↦ rw e v.0
  | inr e ↦ rw e (lookup-IsRunList k m v.1)
]

pub insert-AllLists :
    (k : ℕ) (l : RunList) (m : RunMap) → IsRunList l → AllLists m → AllLists (insert k l m)
unfolding insert
insert-AllLists k l [] w v = (w, tt)
insert-AllLists k l ((j, l') ∷ m) w v = elim (Bool-cases (j == k)) [
  | inl e ↦ rw e (w, v.1)
  | inr e ↦ rw e (v.0, insert-AllLists k l m w v.1)
]

pub remove-AllLists : (k : ℕ) (m : RunMap) → AllLists m → AllLists (remove k m)
unfolding remove
remove-AllLists k [] v = tt
remove-AllLists k ((j, l) ∷ m) v = elim (Bool-cases (j == k)) [
  | inl e ↦ rw e v.1
  | inr e ↦ rw e (v.0, remove-AllLists k m v.1)
]
