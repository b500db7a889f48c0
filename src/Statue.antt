-- ===== src/Statue.antt =====
-- crates/Statue: the ELF library.
pub mod Error
pub mod Memory
pub mod Parse
pub mod Header
pub mod Program
pub mod Symbol
mod Tests
mod Examples
