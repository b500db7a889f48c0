-- ===== src/Kernel/RunQueue/Locks.antt =====
-- Calls of the run queue that wait for a lock of their own thread.
use prisma_os.Base.{
  ℕ, ◌≡◌, ◌≢◌, refl, Bool, true, false, ◌||◌, List, [], ◌∷◌, ◌++◌, none, some, arith, ap, ◌⊎◌, inl,
  inr, Bool-cases, ◌∙◌,
}
use prisma_os.Kernel.Process.{Process, is_running, set_assigned_cpu, set_state, ready}
use prisma_os.Kernel.RunQueue.{
  CpuRunQueue, Cpu, Outcome, returned, deadlock, find_process, update_process, low_lock,
  normal_lock, high_lock, current_lock, contains, is_current, release,
}
use prisma_os.Kernel.RunQueue.Operations.{
  add_process, remove_process, preempt_current, steal_process, level_of, runs,
}

-- Whether the queue holds the process somewhere.
abbrev pub holds : ℕ → CpuRunQueue → Bool
holds pid q =
    contains pid q.ready_queue
    || contains pid q.high_priority_queue
    || contains pid q.normal_priority_queue
    || contains pid q.low_priority_queue
    || is_current pid q.current_process

-- The processes that can be stolen, in the order in which they are.
abbrev pub waiting : CpuRunQueue → List ℕ
waiting q = q.low_priority_queue ++ (q.normal_priority_queue ++ q.high_priority_queue)

List-cases : (xs : List ℕ) → (xs ≡ []) ⊎ ((x : ℕ) × (rest : List ℕ) × (xs ≡ x ∷ rest))
List-cases [] = inl refl
List-cases (x ∷ xs) = inr (x, xs, refl)

level_of-cases :
    (n : ℕ) → (level_of n ≡ low_lock) ⊎ ((level_of n ≡ normal_lock) ⊎ (level_of n ≡ high_lock))
unfolding level_of
level_of-cases n = ground arith

-- The priority that a process has in the state.
abbrev priority_in : ℕ → Cpu → ℕ
priority_in pid s = elim (find_process pid s.processes) [ none ↦ 0 | some p ↦ p.priority ]

add_process-deadlock :
    (s : Cpu) (pid : ℕ) → s.held ≡ current_lock ∷ [] → add_process false pid s ≡ deadlock
unfolding add_process
add_process-deadlock s pid h =
    let t = record s {
      processes = update_process pid (set_assigned_cpu s.queue.cpu_id) s.processes;
    } in
    elim (level_of-cases (priority_in pid t)) [
      | inl low ↦ rw (h, low, add_process)
      | inr (inl normal) ↦ rw (h, normal, add_process)
      | inr (inr high) ↦ rw (h, high, add_process)
    ]

-- Preempting a running process never returns: the process is put back while the lock of the
-- current process is held, and the load cannot be computed.
pub preempt_current-deadlock :
    (s : Cpu) (pid : ℕ) (p : Process)
    → s.held ≡ []
    → s.queue.current_process ≡ some pid
    → find_process pid s.processes ≡ some p
    → is_running p.state ≡ true
    → preempt_current false s ≡ deadlock
unfolding preempt_current
preempt_current-deadlock s pid p h c f r =
    let t : Cpu = record {
      queue = record s.queue { current_process = none };
      processes = update_process pid (set_state ready) s.processes;
      held = current_lock ∷ [];
    } in
    let busy : runs s.queue.current_process s.processes ≡ true =
      ap (λ o. runs o s.processes) c ∙ rw (runs, f) r in
    rw (h, c, busy, preempt_current)
      (ap {B = Outcome (Unit {0})}
        (λ (o : Outcome (Unit {0})). elim o [
          | returned u a ↦ release current_lock u
          | deadlock ↦ deadlock
        ])
        (add_process-deadlock t pid refl))

-- Removing a process that is queued or current never returns.
pub remove_process-deadlock :
    (s : Cpu) (pid : ℕ)
    → s.held ≡ []
    → holds pid s.queue ≡ true
    → remove_process false pid s ≡ deadlock
unfolding remove_process
remove_process-deadlock s pid h e = elim (Bool-cases (is_current pid s.queue.current_process)) [
  | inl here ↦ let some_queue = rw here at e in rw (h, here, remove_process) (rw some_queue)
  | inr other ↦ let some_queue = rw other at e in rw (h, other, remove_process) (rw some_queue)
]

-- Stealing from a queue that has anything to steal never returns.
pub steal_process-deadlock :
    (s : Cpu) → s.held ≡ [] → waiting s.queue ≢ [] → steal_process false s ≡ deadlock
unfolding steal_process
steal_process-deadlock s h e = elim (List-cases s.queue.low_priority_queue) [
  | inr (x, rest, low) ↦ rw (h, low, steal_process)
  | inl low ↦ elim (List-cases s.queue.normal_priority_queue) [
    | inr (x, rest, normal) ↦ rw (h, low, normal, steal_process)
    | inl normal ↦ elim (List-cases s.queue.high_priority_queue) [
      | inr (x, rest, high) ↦ rw (h, low, normal, high, steal_process)
      | inl high ↦ absurd (e (rw (low, normal, high)))
    ]
  ]
]
