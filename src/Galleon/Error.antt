-- ===== src/Galleon/Error.antt =====
-- The results of crates/galleon2/src/lib.rs and of the IDE driver, drivers/ide/src/lib.rs.

pub data IdeError : Type 0 where
  drive_not_found drive_fault status_error data_not_ready lba_out_of_range timeout : IdeError
  invalid_parameter buffer_too_small : IdeError

pub data FilesystemError : Type 0 where
  ide : IdeError → FilesystemError
  invalid_boot_block drive_not_found insufficient_space invalid_parameter : FilesystemError
  write_error : FilesystemError

-- `impl From<IdeError> for FilesystemError`
unfoldable pub from_ide : IdeError → FilesystemError
from_ide IdeError.drive_not_found = FilesystemError.drive_not_found
from_ide e = ide e

pub data FilesystemResult {ℓ} (A : Type ℓ) : Type ℓ where
  ok : A → FilesystemResult A
  err : FilesystemError → FilesystemResult A
