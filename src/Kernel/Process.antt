-- ===== src/Kernel/Process.antt =====
-- crates/lib_kernel/src/scheduler/process.rs: a process and its descriptors and capabilities. Atomics,
-- mutexes and read-write locks around a single field are the field.
pub mod Descriptors
use prisma_os.Base.{
  ℕ, ◌+◌, ◌^◌, ◌%◌, Bool, true, false, not, ◌&&◌, ◌||◌, List, [], ◌∷◌, ◌++◌, Option, none, some,
  ◌==◌, if◌then◌else◌, length, get_elem?, set, replicate,
}
use prisma_os.Base.Words.{add64}
use prisma_os.Kernel.Registry.{Capability, has}

pub data ProcessState : Type 0 where
  ready running blocked zombie : ProcessState

pub data BlockReason : Type 0 where
  io_wait mutex_wait semaphore_wait sleep page_fault ipc_wait : BlockReason

pub data FileResource : Type 0 where
  console framebuffer socket shared_memory : FileResource

pub record FileDescriptor : Type 0 where
  pub fd : ℕ
  pub flags : ℕ
  pub offset : ℕ
  pub resource : FileResource

-- The general registers that are not among the others start at zero.
pub record ProcessContext : Type 0 where
  pub general : List ℕ
  pub rbp : ℕ
  pub rsp : ℕ
  pub rip : ℕ
  pub rflags : ℕ
  pub cr3 : ℕ

unfoldable pub context_new : ℕ → ℕ → ℕ → ProcessContext
context_new entry_point stack_pointer page_table = record {
  general = replicate 14 0;
  rbp = stack_pointer;
  rsp = stack_pointer;
  rip = entry_point;
  rflags = 0x200;
  cr3 = page_table;
}

pub record Process : Type 0 where
  pub id : ℕ
  pub context : ProcessContext
  pub state : ProcessState
  pub priority : ℕ
  pub assigned_cpu : ℕ
  pub creation_time : ℕ
  pub total_runtime : ℕ
  pub last_scheduled : ℕ
  pub page_table : ℕ
  pub stack_base : ℕ
  pub heap_base : ℕ
  pub exit_code : Option ℕ
  pub block_reason : Option BlockReason
  pub capability_table : List Capability
  pub file_descriptors : List (Option FileDescriptor)
  pub context_switches : ℕ
  pub page_faults : ℕ
  pub syscalls : ℕ

-- The identifier and the time are the values of the kernel's counters. The name, a text for
-- display, is left out; the page table is the constant of the source.
unfoldable pub new : ℕ → ℕ → ℕ → ℕ → Process
unfolding context_new
new id current_time entry_point priority = record {
  id = id;
  context = context_new entry_point 0x7fffff000000 0x1000;
  state = ready;
  priority = priority;
  assigned_cpu = 0;
  creation_time = current_time;
  total_runtime = 0;
  last_scheduled = 0;
  page_table = 0x1000;
  stack_base = 0x7fffff000000;
  heap_base = 0x10000000;
  exit_code = none;
  block_reason = none;
  capability_table = [];
  file_descriptors = [];
  context_switches = 0;
  page_faults = 0;
  syscalls = 0;
}

abbrev pub is_running : ProcessState → Bool
is_running ready = false
is_running running = true
is_running blocked = false
is_running zombie = false

abbrev pub is_blocked : ProcessState → Bool
is_blocked ready = false
is_blocked running = false
is_blocked blocked = true
is_blocked zombie = false

abbrev pub set_state : ProcessState → Process → Process
set_state s p = record p { state = s }

abbrev pub set_assigned_cpu : ℕ → Process → Process
set_assigned_cpu c p = record p { assigned_cpu = c }

abbrev pub set_block_reason : Option BlockReason → Process → Process
set_block_reason reason p = record p { block_reason = reason }

abbrev pub set_exit_code : Option ℕ → Process → Process
set_exit_code exit p = record p { exit_code = exit }

abbrev pub increment_context_switches : Process → Process
increment_context_switches p = record p { context_switches = add64 p.context_switches 1 }

-- A priority is a number of 8 bits.
abbrev pub set_priority : ℕ → Process → Process
set_priority priority p = record p { priority = priority }

abbrev pub increment_page_faults : Process → Process
increment_page_faults p = record p { page_faults = add64 p.page_faults 1 }

abbrev pub increment_syscalls : Process → Process
increment_syscalls p = record p { syscalls = add64 p.syscalls 1 }

unfoldable pub update_runtime : ℕ → Process → Process
update_runtime ticks p = record p {
  total_runtime = add64 p.total_runtime ticks;
  last_scheduled = ticks;
}

unfoldable pub add_capability : Capability → Process → Process
add_capability c p = record p { capability_table = p.capability_table ++ (c ∷ []) }

abbrev pub any_capability : ℕ → ℕ → List Capability → Bool
any_capability handle rights [] = false
any_capability handle rights (c ∷ cs) =
    (c.handle == handle && has c.rights rights) || any_capability handle rights cs

unfoldable pub has_capability : ℕ → ℕ → Process → Bool
has_capability handle rights p = any_capability handle rights p.capability_table

-- `fds.len() as u32`
unfoldable pub allocate_fd : FileResource → Process → Process × ℕ
allocate_fd resource p =
    let fd_num = length p.file_descriptors % 2 ^ 32 in
    let d : FileDescriptor = record { fd = fd_num; flags = 0; offset = 0; resource = resource } in
    (record p { file_descriptors = p.file_descriptors ++ (some d ∷ []) }, fd_num)

unfoldable pub get_fd : ℕ → Process → Option FileDescriptor
get_fd n p = elim (get_elem? p.file_descriptors n) [
  | none ↦ none
  | some none ↦ none
  | some (some d) ↦ some d
]

-- A number out of range changes nothing.
unfoldable pub close_fd : ℕ → Process → Process
close_fd n p = record p { file_descriptors = set p.file_descriptors n none }
