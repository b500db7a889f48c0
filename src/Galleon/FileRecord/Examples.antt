-- ===== src/Galleon/FileRecord/Examples.antt =====
-- A drive in memory, and the theorems on the file table at concrete inputs.
pub mod Drive
mod Records
mod Files
