-- ===== src/Kernel/Examples.antt =====
-- The theorems on the kernel at concrete inputs.
use prisma_os.Base.{
  ℕ, ◌+◌, ◌<◌, ◌^◌, ◌≡◌, ◌≢◌, refl, true, false, [], ◌∷◌, none, some, ◌==◌, if◌then◌else◌, arith,
  inl, inr, Bool-cases,
}
use prisma_os.Base.Maps.{lookup}
use prisma_os.Kernel.Registry.{
  ObjectRegistry, ok, err, insufficient_rights, object_not_found, has, new, register_object,
  get_object, transfer_capability, find_capability,
}
use prisma_os.Kernel.Registry.Steps.{here, later, register, transfer, Reach-get_object}
use prisma_os.Kernel.Registry.Confinement.{IsConfined, Reach-IsConfined}
use prisma_os.Kernel.Registry.Authority.{capabilities_of}
use prisma_os.Kernel.Registry.Rights.{get_object-transfer_capability}
use prisma_os.Kernel.Process as Process
use prisma_os.Kernel.Process.{Process, ready, running, set_state}
use prisma_os.Kernel.RunQueue as RunQueue
use prisma_os.Kernel.RunQueue.{CpuRunQueue, Cpu, Outcome, returned, deadlock, find_process}
use prisma_os.Kernel.RunQueue.Operations.{preempt_current, priority_schedule, round_robin_schedule}
use prisma_os.Kernel.RunQueue.Locks.{preempt_current-deadlock}
use prisma_os.Kernel.RunQueue.Choice.{
  Chosen, in_order, prioritised, priority_schedule_lem, round_robin_schedule_lem,
}

-- A registry in which process 1 holds object 5 under handle 1 with the given rights.
abbrev holding : ℕ → ObjectRegistry ℕ
holding rights = record {
  objects = (1, 5) ∷ [];
  capabilities = (1, record { handle = 1; rights = rights; owner = 1 } ∷ []) ∷ [];
  next_handle = 2;
}

small : (new {Object = ℕ}).next_handle + 1 < 2 ^ 64
unfolding new
small = omega arith

Reach-get_object_example :
    get_object 1 1 1 (register_object 5 1 3 (new {Object = ℕ})).0 ≢ err object_not_found
Reach-get_object_example =
    Reach-get_object (register_object 5 1 3 new).0 1 1 1 (later here (register 5 1 3 new small))

holding-IsConfined : IsConfined 1 (λ p. 1 == p) (holding 3)
unfolding lookup
holding-IsConfined p = elim (Bool-cases (1 == p)) [
  | inl owner ↦ rw owner (inr (refl, owner), tt)
  | inr other ↦ rw other tt
]

Reach-IsConfined_example :
    IsConfined 1 (λ p. 1 == p) (transfer_capability 1 1 2 1 (holding 3)).0
    × (1 < (transfer_capability 1 1 2 1 (holding 3)).0.next_handle)
Reach-IsConfined_example =
    Reach-IsConfined 1 (λ p. 1 == p) (later here (transfer 1 1 2 1 (holding 3))) (omega arith)
      holding-IsConfined

present :
    lookup 1 (holding 16).capabilities ≡ some (record { handle = 1; rights = 16; owner = 1 } ∷ [])
unfolding lookup
present = refl

found :
    find_capability 1 (record { handle = 1; rights = 16; owner = 1 } ∷ [])
    ≡ some (record { handle = 1; rights = 16; owner = 1 })
unfolding find_capability
found = refl

not_held : find_capability 1 [] ≡ none
unfolding find_capability
not_held = refl

known : lookup 1 (holding 16).objects ≡ some 5
unfolding lookup
known = refl

none_yet : find_capability 1 (capabilities_of (holding 16) 2) ≡ none
unfolding lookup find_capability
none_yet = refl

get_object-transfer_capability_example :
    get_object 1 2 2 (transfer_capability 1 1 2 3 (holding 16)).0
    ≡ (if has 3 2 then ok 5 else err insufficient_rights)
get_object-transfer_capability_example =
    get_object-transfer_capability (holding 16) 1 1 2 3
      (record { handle = 1; rights = 16; owner = 1 } ∷ [])
      (record { handle = 1; rights = 16; owner = 1 }) 5 present found refl none_yet known 2

-- Process 1 runs, and processes 2 and 3 wait.
abbrev process_with : ℕ → Process.ProcessState → Process
process_with id state = set_state state (Process.new id 0 0x400000 100)

abbrev busy : Cpu
busy = record {
  queue = record (RunQueue.new 0) {
    current_process = some 1;
    high_priority_queue = 2 ∷ [];
    normal_priority_queue = 3 ∷ [];
  };
  processes = process_with 1 running ∷ process_with 2 ready ∷ process_with 3 ready ∷ [];
  held = [];
}

abbrev idle : Cpu
idle = record busy { queue = record busy.queue { current_process = none } }

finds : find_process 1 busy.processes ≡ some (process_with 1 running)
unfolding find_process Process.new
finds = refl

preempt_current-deadlock_example : preempt_current false busy ≡ deadlock
preempt_current-deadlock_example =
    preempt_current-deadlock busy 1 (process_with 1 running) refl refl finds refl

priority_schedule_example : Chosen prioritised (priority_schedule true) busy
priority_schedule_example = priority_schedule_lem true busy refl

round_robin_schedule_example : Chosen in_order (round_robin_schedule true) idle
round_robin_schedule_example = round_robin_schedule_lem true idle refl refl
