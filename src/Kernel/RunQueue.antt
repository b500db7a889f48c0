-- ===== src/Kernel/RunQueue.antt =====
-- crates/lib_kernel/src/scheduler/cpu.rs: the run queue of one processor. Queues hold the identifiers
-- of processes, which are shared through `Arc`: the processes themselves are in the state beside the
-- queue. Each queue and the current process is behind a spin lock, whose guards are taken and
-- dropped where the source does; `reentrant` tells whether the lock of the crate `spin` can be
-- taken again by the thread that holds it.
pub mod Operations
pub mod Choice
pub mod Locks
use prisma_os.Base.{
  ℕ, zero, suc, ◌+◌, ◌^◌, ◌%◌, Bool, true, false, not, ◌&&◌, ◌||◌, List, [], ◌∷◌, ◌++◌, Option,
  none, some, leb, ◌==◌, if◌then◌else◌, length,
}
use prisma_os.Base.Words.{add64}
use prisma_os.Kernel.Process.{
  ProcessState, ready, running, blocked, zombie, Process, is_running, set_state, set_assigned_cpu,
  increment_context_switches,
}

pub data SchedulingPolicy : Type 0 where
  round_robin priority_based real_time : SchedulingPolicy

pub data Lock : Type 0 where
  ready_lock current_lock high_lock normal_lock low_lock : Lock

abbrev pub lock_number : Lock → ℕ
lock_number ready_lock = 0
lock_number current_lock = 1
lock_number high_lock = 2
lock_number normal_lock = 3
lock_number low_lock = 4

pub record CpuRunQueue : Type 0 where
  pub cpu_id : ℕ
  pub ready_queue : List ℕ
  pub current_process : Option ℕ
  pub high_priority_queue : List ℕ
  pub normal_priority_queue : List ℕ
  pub low_priority_queue : List ℕ
  pub load_average : ℕ
  pub context_switches : ℕ
  pub idle_ticks : ℕ
  pub active_ticks : ℕ
  pub last_tick : ℕ

unfoldable pub new : ℕ → CpuRunQueue
new cpu_id = record {
  cpu_id = cpu_id;
  ready_queue = [];
  current_process = none;
  high_priority_queue = [];
  normal_priority_queue = [];
  low_priority_queue = [];
  load_average = 0;
  context_switches = 0;
  idle_ticks = 0;
  active_ticks = 0;
  last_tick = 0;
}

-- The queue, the processes, and the locks that the running thread holds.
pub record Cpu : Type 0 where
  pub queue : CpuRunQueue
  pub processes : List Process
  pub held : List Lock

-- A call returns, or waits for a lock that its own thread holds.
pub data Outcome (A : Type 0) : Type 0 where
  returned : Cpu → A → Outcome A
  deadlock : Outcome A

abbrev pub Op : Type 0 → Type 0
Op A = Cpu → Outcome A

infixl 5 ◌>>=◌ ◌>>◌
abbrev pub ◌>>=◌ : {A B : Type 0} → Op A → (A → Op B) → Op B
◌>>=◌ m f s = elim (m s) [ returned t a ↦ f a t | deadlock ↦ deadlock ]

abbrev pub ◌>>◌ : {B : Type 0} → Op (Unit {0}) → Op B → Op B
◌>>◌ m k s = elim (m s) [ returned t a ↦ k t | deadlock ↦ deadlock ]

abbrev pub pure : {A : Type 0} → A → Op A
pure a s = returned s a

abbrev pub get : Op CpuRunQueue
get s = returned s s.queue

abbrev pub put : CpuRunQueue → Op (Unit {0})
put q s = returned (record s { queue = q }) tt

abbrev pub is_held : Lock → List Lock → Bool
is_held l [] = false
is_held l (k ∷ ks) = lock_number k == lock_number l || is_held l ks

abbrev pub drop_lock : Lock → List Lock → List Lock
drop_lock l [] = []
drop_lock l (k ∷ ks) = if lock_number k == lock_number l then ks else k ∷ drop_lock l ks

-- The end of a guard.
abbrev pub release : Lock → Op (Unit {0})
release l s = returned (record s { held = drop_lock l s.held }) tt

-- The queue behind a lock.
abbrev pub queue_at : Lock → CpuRunQueue → List ℕ
queue_at ready_lock q = q.ready_queue
queue_at current_lock q = []
queue_at high_lock q = q.high_priority_queue
queue_at normal_lock q = q.normal_priority_queue
queue_at low_lock q = q.low_priority_queue

abbrev pub store_at : Lock → List ℕ → CpuRunQueue → CpuRunQueue
store_at ready_lock ps q = record q { ready_queue = ps }
store_at current_lock ps q = q
store_at high_lock ps q = record q { high_priority_queue = ps }
store_at normal_lock ps q = record q { normal_priority_queue = ps }
store_at low_lock ps q = record q { low_priority_queue = ps }

-- A process and a change of it.
unfoldable pub find_process : ℕ → List Process → Option Process
find_process pid [] = none
find_process pid (p ∷ ps) = if p.id == pid then some p else find_process pid ps

unfoldable pub update_process : ℕ → (Process → Process) → List Process → List Process
update_process pid f [] = []
update_process pid f (p ∷ ps) = if p.id == pid then f p ∷ ps else p ∷ update_process pid f ps

abbrev pub modify : ℕ → (Process → Process) → Op (Unit {0})
modify pid f s = returned (record s { processes = update_process pid f s.processes }) tt

abbrev pub priority_of : ℕ → Op ℕ
priority_of pid s =
    returned s (elim (find_process pid s.processes) [ none ↦ 0 | some p ↦ p.priority ])

-- `position` and `remove`, with whether there was one.
unfoldable pub remove_pid : ℕ → List ℕ → List ℕ
remove_pid pid [] = []
remove_pid pid (p ∷ ps) = if p == pid then ps else p ∷ remove_pid pid ps

unfoldable pub contains : ℕ → List ℕ → Bool
contains pid [] = false
contains pid (p ∷ ps) = p == pid || contains pid ps

abbrev pub is_current : ℕ → Option ℕ → Bool
is_current pid none = false
is_current pid (some p) = p == pid
