-- ===== src/Galleon/Volume.antt =====
-- What the allocator acts on: the cluster bitmap's record, the disk behind the IDE driver, and the
-- outcome of an operation. An operation that fails keeps the changes that it made before.
use prisma_os.Base.{ℕ, Bool, false, List, Option, none, ◌*◌, ◌/◌}
use prisma_os.Base.Words.{add64}
use prisma_os.Galleon.Error.{IdeError, FilesystemError}

-- The sector operations of drivers/ide, which move data through I/O ports: drive, number of
-- sectors (8 bits), first sector (32 bits). A read gives the bytes that it put into the buffer.
pub data Read : Type 0 where
  bytes : List ℕ → Read
  failed : IdeError → Read

pub record Ide (Disk : Type 0) : Type 0 where
  pub read_sectors : Disk → ℕ → ℕ → ℕ → Read
  pub write_sectors : Disk → ℕ → ℕ → ℕ → List ℕ → Disk × Option IdeError

pub record ClusterBitmap : Type 0 where
  pub drive : ℕ
  pub bitmap_start_sector : ℕ
  pub bitmap_size_sectors : ℕ
  pub total_clusters : ℕ
  pub clusters_per_sector : ℕ
  pub cached_bitmap : Option (List ℕ)
  pub dirty : Bool

pub record Volume (Disk : Type 0) : Type 0 where
  pub bitmap : ClusterBitmap
  pub disk : Disk

-- The state after an operation, with its result or its error.
pub data Outcome (S A : Type 0) : Type 0 where
  done : S → A → Outcome S A
  fail : S → FilesystemError → Outcome S A

-- The `?` operator.
infixl 5 ◌>>=◌ ◌>>◌
abbrev pub ◌>>=◌ : {S A B : Type 0} → (S → Outcome S A) → (A → S → Outcome S B) → S → Outcome S B
◌>>=◌ m f s = elim (m s) [ done s' a ↦ f a s' | fail s' e ↦ fail s' e ]

abbrev pub ◌>>◌ : {S B : Type 0} → (S → Outcome S (Unit {0})) → (S → Outcome S B) → S → Outcome S B
◌>>◌ m k s = elim (m s) [ done s' a ↦ k s' | fail s' e ↦ fail s' e ]

unfoldable pub new : ℕ → ℕ → ℕ → ClusterBitmap
new drive bitmap_start_sector total_clusters = record {
  drive = drive;
  bitmap_start_sector = bitmap_start_sector;
  bitmap_size_sectors = add64 (add64 total_clusters 7 / 8) 511 / 512;
  total_clusters = total_clusters;
  clusters_per_sector = 512 * 8;
  cached_bitmap = none;
  dirty = false;
}
