-- ===== src/Kernel/Process/Descriptors.antt =====
-- The table of file descriptors.
use prisma_os.Base.{
  ℕ, zero, suc, ◌<◌, ◌^◌, ◌%◌, ◌≡◌, refl, List, [], ◌∷◌, ◌++◌, Option, none, some, ◌==◌,
  if◌then◌else◌, length, get_elem?, set, arith, inl, inr, Bool-cases,
}
use prisma_os.Kernel.Process.{FileResource, FileDescriptor, Process, allocate_fd, get_fd, close_fd}

get_elem?-append :
    (fds : List (Option FileDescriptor)) (d : Option FileDescriptor) (n : ℕ)
    → get_elem? (fds ++ (d ∷ [])) n ≡ (if length fds == n then some d else get_elem? fds n)
get_elem?-append [] d zero = refl
get_elem?-append [] d (suc n) = ground arith
get_elem?-append (x ∷ fds) d zero = ground arith
get_elem?-append (x ∷ fds) d (suc n) = ground (arith, get_elem?-append fds d n)

-- A closed slot reads as nothing, all others are as they were.
abbrev slot : Option (Option FileDescriptor) → Option FileDescriptor
slot none = none
slot (some none) = none
slot (some (some d)) = some d

slot-set :
    (fds : List (Option FileDescriptor)) (m n : ℕ)
    → slot (get_elem? (set fds m none) n) ≡ (if m == n then none else slot (get_elem? fds n))
slot-set [] m n = ground arith
slot-set (x ∷ fds) zero zero = refl
slot-set (x ∷ fds) zero (suc n) = ground arith
slot-set (x ∷ fds) (suc m) zero = ground arith
slot-set (x ∷ fds) (suc m) (suc n) = ground (arith, slot-set fds m n)

-- A new descriptor has a number of its own: that number reads as the descriptor, and each other
-- number as before, while there are fewer than 2 ^ 32 of them.
pub get_fd-allocate_fd :
    (resource : FileResource) (n : ℕ) (p : Process)
    → length p.file_descriptors < 2 ^ 32
    → get_fd n (allocate_fd resource p).0 ≡ (
        if (allocate_fd resource p).1 == n
        then some
            (record { fd = (allocate_fd resource p).1; flags = 0; offset = 0; resource = resource })
        else get_fd n p)
unfolding get_fd allocate_fd
get_fd-allocate_fd resource n p small =
    let same : length p.file_descriptors % 2 ^ 32 ≡ length p.file_descriptors = omega arith in
    let d : FileDescriptor = record {
      fd = length p.file_descriptors;
      flags = 0;
      offset = 0;
      resource = resource;
    } in
    rw same (elim (Bool-cases (length p.file_descriptors == n)) [
      | inl here ↦ rw (get_elem?-append p.file_descriptors (some d) n, here, get_fd)
      | inr other ↦ rw (get_elem?-append p.file_descriptors (some d) n, other, get_fd)
    ])

-- A closed descriptor is gone, and each other number reads as before.
pub get_fd-close_fd :
    (m n : ℕ) (p : Process) → get_fd n (close_fd m p) ≡ (if m == n then none else get_fd n p)
unfolding get_fd close_fd
get_fd-close_fd m n p = ground (arith, slot-set p.file_descriptors m n)
