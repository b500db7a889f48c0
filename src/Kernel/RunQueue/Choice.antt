-- ===== src/Kernel/RunQueue/Choice.antt =====
-- Which process is scheduled: the queues taken together are one list, and its head runs next.
use prisma_os.Base.{
  ℕ, ◌≡◌, refl, sym, ap, subst, ◌∙◌, Bool, true, false, List, [], ◌∷◌, ◌++◌, Option, none, some,
}
use prisma_os.Base.Words.{add64}
use prisma_os.Kernel.Process.{running, Process, set_state, increment_context_switches}
use prisma_os.Kernel.RunQueue.{
  CpuRunQueue, Cpu, Op, ◌>>=◌, ◌>>◌, pure, release, returned, deadlock, current_lock,
  update_process,
}
use prisma_os.Kernel.RunQueue.Operations.{
  runs, run_next, get_next_ready_process, round_robin_schedule, priority_schedule,
}

-- The processes that can run, in the order in which they are taken.
abbrev pub in_order : CpuRunQueue → List ℕ
in_order q =
    q.high_priority_queue ++ (q.normal_priority_queue ++ (q.low_priority_queue ++ q.ready_queue))

abbrev pub head? : List ℕ → Option ℕ
head? [] = none
head? (x ∷ xs) = some x

abbrev pub tail : List ℕ → List ℕ
tail [] = []
tail (x ∷ xs) = xs

-- The queue without the head of the order.
abbrev Beheaded : CpuRunQueue → CpuRunQueue → Type 0
Beheaded q r = (in_order r ≡ tail (in_order q)) × (r.current_process ≡ q.current_process)

-- A queue with the four lists given.
abbrev with_lists : CpuRunQueue → List ℕ → List ℕ → List ℕ → List ℕ → CpuRunQueue
with_lists q high normal low ready = record q {
  high_priority_queue = high;
  normal_priority_queue = normal;
  low_priority_queue = low;
  ready_queue = ready;
}

-- The priority queues alone.
abbrev pub prioritised : CpuRunQueue → List ℕ
prioritised q = q.high_priority_queue ++ (q.normal_priority_queue ++ q.low_priority_queue)

-- The processes once one of them, if any, is started, and the current process then.
abbrev pub started : Option ℕ → List Process → List Process
started none ps = ps
started (some pid) ps =
    update_process pid (λ p. increment_context_switches (set_state running p)) ps

abbrev pub or_current : Option ℕ → Option ℕ → Option ℕ
or_current none current = current
or_current (some pid) current = some pid

abbrev taken : ℕ → CpuRunQueue → CpuRunQueue
taken pid q = record q { current_process = some pid; context_switches = add64 q.context_switches 1 }

abbrev now_running : Option ℕ → CpuRunQueue → CpuRunQueue
now_running none q = q
now_running (some pid) q = taken pid q

-- The operation takes the head of the order, if there is one, and runs it as the current process.
abbrev pub Chosen : (CpuRunQueue → List ℕ) → Op (Option ℕ) → Cpu → Type 0
Chosen order op s =
    (t : Cpu) × (op s ≡ returned t (head? (order s.queue)))
    × (order t.queue ≡ tail (order s.queue))
    × (t.queue.current_process ≡ or_current (head? (order s.queue)) s.queue.current_process)
    × (t.processes ≡ started (head? (order s.queue)) s.processes)
    × (t.held ≡ [])

module _ (reentrant : Bool) where
  get_next_by_lists :
      (q : CpuRunQueue) (ps : List Process) (high normal low ready : List ℕ)
      → (r : CpuRunQueue) × (get_next_ready_process reentrant (record {
        queue = with_lists q high normal low ready;
        processes = ps;
        held = current_lock ∷ [];
      })
          ≡ returned
              (record { queue = r; processes = ps; held = current_lock ∷ [] })
              (head? (in_order (with_lists q high normal low ready))))
        × Beheaded (with_lists q high normal low ready) r
  unfolding get_next_ready_process
  get_next_by_lists q ps (x ∷ high) normal low ready =
      (with_lists q high normal low ready, refl, (refl, refl))
  get_next_by_lists q ps [] (x ∷ normal) low ready =
      (with_lists q [] normal low ready, refl, (refl, refl))
  get_next_by_lists q ps [] [] (x ∷ low) ready = (with_lists q [] [] low ready, refl, (refl, refl))
  get_next_by_lists q ps [] [] [] (x ∷ ready) = (with_lists q [] [] [] ready, refl, (refl, refl))
  get_next_by_lists q ps [] [] [] [] = (with_lists q [] [] [] [], refl, (refl, refl))

  priority_by_lists :
      (q : CpuRunQueue) (ps : List Process) (high normal low ready : List ℕ)
      → Chosen prioritised
          (priority_schedule reentrant)
          (record { queue = with_lists q high normal low ready; processes = ps; held = [] })
  unfolding priority_schedule
  priority_by_lists q ps (x ∷ high) normal low ready = (
    record {
      queue = taken x (with_lists q high normal low ready);
      processes = started (some x) ps;
      held = [];
    },
    refl,
    refl,
    refl,
    refl,
    refl,
  )
  priority_by_lists q ps [] (x ∷ normal) low ready = (
    record {
      queue = taken x (with_lists q [] normal low ready);
      processes = started (some x) ps;
      held = [];
    },
    refl,
    refl,
    refl,
    refl,
    refl,
  )
  priority_by_lists q ps [] [] (x ∷ low) ready = (
    record {
      queue = taken x (with_lists q [] [] low ready);
      processes = started (some x) ps;
      held = [];
    },
    refl,
    refl,
    refl,
    refl,
    refl,
  )
  priority_by_lists q ps [] [] [] ready = (
    record { queue = with_lists q [] [] [] ready; processes = ps; held = [] },
    refl,
    refl,
    refl,
    refl,
    refl,
  )

  -- From a state with no lock held, `priority_schedule` returns the head of the three priority queues
  -- taken together, if there is one, removes it from them, marks it running and makes it
  -- the current process, whatever the current process was, and leaves no lock held.
  pub priority_schedule_lem :
      (s : Cpu) → s.held ≡ [] → Chosen prioritised (priority_schedule reentrant) s
  priority_schedule_lem s h =
      subst (λ t. Chosen prioritised (priority_schedule reentrant) t)
        (ap (λ ls. record { queue = s.queue; processes = s.processes; held = ls }) (sym h))
        (priority_by_lists s.queue s.processes s.queue.high_priority_queue
          s.queue.normal_priority_queue s.queue.low_priority_queue s.queue.ready_queue)

  run_next_lem :
      (next : Option ℕ) (q : CpuRunQueue) (ps : List Process)
      → (run_next reentrant next >>= (λ chosen. release current_lock >> pure chosen))
          (record { queue = q; processes = ps; held = current_lock ∷ [] })
        ≡ returned
            (record { queue = now_running next q; processes = started next ps; held = [] })
            next
  run_next_lem none q ps = refl
  run_next_lem (some pid) q ps = refl

  in_order-now_running :
      (next : Option ℕ) (q : CpuRunQueue) → in_order (now_running next q) ≡ in_order q
  in_order-now_running none q = refl
  in_order-now_running (some pid) q = refl

  now_running_current :
      (next : Option ℕ) (q : CpuRunQueue)
      → (now_running next q).current_process ≡ or_current next q.current_process
  now_running_current none q = refl
  now_running_current (some pid) q = refl

  round_robin_idle :
      (q : CpuRunQueue) (ps : List Process)
      → runs q.current_process ps ≡ false
      → Chosen in_order
          (round_robin_schedule reentrant)
          (record { queue = q; processes = ps; held = [] })
  unfolding round_robin_schedule
  round_robin_idle q ps idle =
      let (r, e, (order, current)) =
        get_next_by_lists q ps q.high_priority_queue q.normal_priority_queue q.low_priority_queue
          q.ready_queue in
      let next = head? (in_order q) in
      (
        record { queue = now_running next r; processes = started next ps; held = [] },
        rw (idle) (
            ap
              (λ o. elim o [
                | returned t a ↦
                    (run_next reentrant a >>= (λ chosen. release current_lock >> pure chosen)) t
                | deadlock ↦ deadlock
              ])
              e
            ∙ run_next_lem next r ps),
        in_order-now_running next r ∙ order,
        now_running_current next r ∙ ap (or_current next) current,
        refl,
        refl,
      )

  -- From a state with no lock held whose current process does not run, `round_robin_schedule` returns
  -- the head of all queues taken together, if there is one, removes it from them, marks it
  -- running and makes it the current process, and leaves no lock held.
  pub round_robin_schedule_lem :
      (s : Cpu)
      → s.held ≡ []
      → runs s.queue.current_process s.processes ≡ false
      → Chosen in_order (round_robin_schedule reentrant) s
  round_robin_schedule_lem s h idle =
      subst (λ t. Chosen in_order (round_robin_schedule reentrant) t)
        (ap (λ ls. record { queue = s.queue; processes = s.processes; held = ls }) (sym h))
        (round_robin_idle s.queue s.processes idle)

  -- From a state with no lock held whose current process runs, `round_robin_schedule` changes nothing
  -- and returns the current process.
  pub round_robin_schedule_continues :
      (s : Cpu)
      → s.held ≡ []
      → runs s.queue.current_process s.processes ≡ true
      → round_robin_schedule reentrant s ≡ returned s s.queue.current_process
  unfolding round_robin_schedule
  round_robin_schedule_continues s h busy = rw (h, busy) refl
