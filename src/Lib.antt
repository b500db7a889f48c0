-- ===== src/Lib.antt =====
-- PrismaOS: a hobby operating system kernel with its file system, ELF library and drivers. This library
-- models the parts that carry its own logic and proves what makes them correct.
--
-- Parts and files
-- * Base holds what the models share: tests on numbers, lists, 64-bit words, single bits of a byte,
--   little-endian bytes, and fields that stand one after the other.
-- * Galleon is the file system crates/galleon2. Galleon/Run and Galleon/RunList are `ClusterRun` and
--   `RunList` of crates/galleon2/src/allocation.rs; Galleon/Scan holds the scans for free space and
--   Galleon/Bitmap the other methods of `ClusterBitmap`; Galleon/Allocator is `ClusterAllocator`. Each has
--   the function names of the source. Galleon/Volume is the state that these share, the bitmap and the
--   disk, and Galleon/Error the error types of crates/galleon2/src/lib.rs. The proofs are in the child
--   modules, and Galleon/Tests has the tests and the theorems at concrete inputs.
-- * Statue is the ELF library crates/Statue. Statue/Memory is the memory manager of src/memory.rs there,
--   with its invariant in Statue/Memory/Frames and the properties of each group of methods in the other
--   children.
-- * Statue/Parse has the readers of bytes, where a read outside the slice is a panic; Statue/Header,
--   Statue/Program and Statue/Symbol are src/header.rs, src/program.rs and src/symbol.rs there. What is
--   modelled of the last is the symbols and the iterator over them, not the lookup by name.
--   Statue/Tests and Statue/Examples have the theorems at concrete inputs.
-- * Galleon/SuperBlock is crates/galleon2/src/super_block.rs.
-- * Galleon/Journal and Galleon/Transactions are crates/galleon2/src/journal.rs: the log record, and the
--   transactions with the journal manager, whose state is joined with the disk and the counter that
--   stands for the time. The padding loop has eight rounds of fuel, and needs at
--   most seven; the loop of `recover` over a sector needs eleven, one for every 48 bytes and one more,
--   since no record is shorter. Galleon/Examples has the theorems of these and of the superblock at
--   concrete inputs.
-- * Galleon/FileName and Galleon/Index are crates/galleon2/src/file_record.rs (times, flags and file
--   names) and crates/galleon2/src/btree.rs. Galleon/Index has the entries and headers with their bytes,
--   Galleon/Index/Bytes the bytes of a node, whose reading loop has fuel, Galleon/Index/Node the nodes in
--   memory, Galleon/Index/Drive the nodes on the sectors of the driver, and Galleon/Index/Tree the
--   operations of `BTreeManager`, over functions that read and write nodes (`NodeDisk`), of which nothing
--   is assumed but that reading ends without a panic. Each descent has fuel, which the source
--   has not. Galleon/Index/Examples has the theorems at concrete inputs, on
--   nodes in memory.
-- * Kernel is crates/lib_kernel. Kernel/Registry is the object registry of src/api/mod.rs there, with the
--   counter that handles come from; Kernel/Process is src/scheduler/process.rs, and Kernel/RunQueue is
--   src/scheduler/cpu.rs. The hash maps are association lists, and a process that is shared through
--   `Arc` is named by its identifier. A call of the run queue takes and drops the guards that the source
--   takes and drops; it ends in `deadlock` when it waits for a lock that its own thread holds. That the
--   lock of the crate spin cannot be taken twice is the value `false` of a parameter. Kernel/Examples has
--   the theorems at concrete inputs.
-- * Galleon/Mft is crates/galleon2/src/mft.rs: the records and their attributes in memory; Galleon/Mft/Bytes
--   has their bytes, and Galleon/Mft/Manager the table in the clusters of a disk. A slice out of range is a
--   panic. The loop that reads the attributes has fuel, of which a round for each byte is enough
--   unless an attribute has no length. Galleon/StandardInformation and Galleon/FileRecord are the rest
--   of crates/galleon2/src/file_record.rs: the manager of the files, over the table and the
--   journal, which share the disk. A drive is taken with its laws as a hypothesis (`IsDisk`), for its
--   sectors below 2 ^ 28, which a drive in memory fills in Galleon/FileRecord/Examples.
--
-- How the models are made
-- * A method that takes `&mut self` is a function from a state to an outcome, `done` with the new state
--   and a value or `fail` with the new state and an error: what was changed before `?` returns an error
--   stays changed. A method that cannot fail returns the new state.
-- * Numbers are natural numbers; sums and differences of `u64` values wrap at `2 ^ 64` where the source
--   does not bound them, as in a release build. Theorems state the bounds under which nothing wraps.
-- * The IDE driver moves data through I/O ports. Its two sector operations are a record, `Ide`, that
--   every operation of the bitmap takes; nothing is assumed of it unless a theorem says so.
-- * `BTreeMap`, `Vec` and `sort_by_key` of the Rust library are lists, an association list and a stable
--   insertion sort.
-- * Loops are recursions on the rounds that are left. The loop of `load_bitmap` has one round of fuel for
--   each sector, and reads at least one in each.
--
-- Not modelled: the file operations of crates/galleon2/src/galleon_fs.rs,
-- crates/galleonfs, the sections, relocations, loader and interpreter of crates/Statue, the scheduler
-- over all processors, the system calls, the memory and the executor of crates/lib_kernel, the kernel's
-- start-up (kernel) and crates/Luminal, none of which the models above call; console output, port and
-- memory-mapped I/O and inline assembly in the drivers; and the part that the repository copies from
-- elsewhere (ext4-view-rs).
pub mod Base
pub mod Galleon
pub mod Statue
pub mod Kernel
