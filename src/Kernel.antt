-- ===== src/Kernel.antt =====
-- crates/lib_kernel: the kernel.
pub mod Registry
pub mod Process
pub mod RunQueue
mod Examples
