-- ===== src/Galleon.antt =====
-- crates/galleon2: the Galleon file system.
pub mod Error
pub mod Run
pub mod RunList
pub mod Volume
pub mod Scan
pub mod Bitmap
pub mod Allocator
pub mod SuperBlock
pub mod Journal
pub mod FileName
pub mod StandardInformation
pub mod Index
pub mod Mft
pub mod Transactions
pub mod FileRecord
mod Tests
mod Examples
