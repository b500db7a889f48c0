-- ===== src/Kernel/RunQueue/Operations.antt =====
-- The methods of `CpuRunQueue`.
use prisma_os.Base.{
  ℕ, ◌+◌, ◌^◌, ◌%◌, Bool, false, not, ◌&&◌, ◌||◌, List, [], ◌∷◌, ◌++◌, Option, none, some, leb,
  ◌==◌, if◌then◌else◌, length,
}
use prisma_os.Base.Words.{add64}
use prisma_os.Kernel.Process.{
  ready, running, Process, is_running, set_state, set_assigned_cpu, increment_context_switches,
}
use prisma_os.Kernel.RunQueue.{
  SchedulingPolicy, round_robin, priority_based, real_time, Lock, ready_lock, current_lock,
  high_lock, normal_lock, low_lock, returned, deadlock, Op, ◌>>=◌, ◌>>◌, pure, get, put, is_held,
  release, queue_at, store_at, find_process, modify, priority_of, remove_pid, contains, is_current,
}

abbrev pop : Lock → Op (Option ℕ)
pop l s = elim (queue_at l s.queue) [
  | [] ↦ returned s none
  | p ∷ ps ↦ returned (record s { queue = store_at l ps s.queue }) (some p)
]

abbrev push : Lock → ℕ → Op (Unit {0})
push l pid s =
    returned (record s { queue = store_at l (queue_at l s.queue ++ (pid ∷ [])) s.queue }) tt

-- `if let Some(pos) = queue.iter().position(…)`, with the removal.
abbrev remove_from : Lock → ℕ → Op Bool
remove_from l pid s =
    returned (record s { queue = store_at l (remove_pid pid (queue_at l s.queue)) s.queue })
      (contains pid (queue_at l s.queue))

-- Whether the current process is there and running.
abbrev pub runs : Option ℕ → List Process → Bool
runs none ps = false
runs (some pid) ps = elim (find_process pid ps) [ none ↦ false | some p ↦ is_running p.state ]

-- The queue for a priority.
unfoldable pub level_of : ℕ → Lock
level_of priority =
    if leb priority 63 then low_lock else if leb priority 127 then normal_lock else high_lock

module _ (reentrant : Bool) where
  abbrev pub acquire : Lock → Op (Unit {0})
  acquire l s =
      if is_held l s.held && not reentrant
      then deadlock
      else returned (record s { held = l ∷ s.held }) tt

  -- A guard that is dropped at the end of the statement.
  abbrev with_lock : {A : Type 0} → Lock → Op A → Op A
  with_lock l op = do acquire l; a ← op; release l; pure a

  -- `if let Some(p) = queue.lock().pop_front() { … }`: the guard lives until the block ends.
  abbrev if_popped : {A : Type 0} → Lock → (ℕ → Op A) → Op A → Op A
  if_popped l body rest = do
    acquire l
    front ← pop l
    elim front [ none ↦ (do release l; rest) | some pid ↦ (do a ← body pid; release l; pure a) ]

  abbrev count_at : Lock → Op ℕ
  count_at l = with_lock l (λ s. returned s (length (queue_at l s.queue)))

  unfoldable pub update_load : Op (Unit {0})
  update_load = do
    high_count ← count_at high_lock
    normal_count ← count_at normal_lock
    low_count ← count_at low_lock
    ready_count ← count_at ready_lock
    current ← with_lock current_lock (λ s. returned s s.queue.current_process)
    q ← get
    let current_load : ℕ = elim current [ none ↦ 0 | some pid ↦ 1 ]
    put (record q {
      load_average = (high_count + normal_count + low_count + ready_count + current_load) % 2 ^ 32;
    })

  unfoldable pub add_process : ℕ → Op (Unit {0})
  unfolding update_load
  add_process pid = do
    q ← get
    modify pid (set_assigned_cpu q.cpu_id)
    priority ← priority_of pid
    with_lock (level_of priority) (push (level_of priority) pid)
    update_load

  -- The guard of the current process lives until the end of the function.
  unfoldable pub remove_process : ℕ → Op Bool
  unfolding update_load
  remove_process pid = do
    from_ready ← with_lock ready_lock (remove_from ready_lock pid)
    from_high ← with_lock high_lock (remove_from high_lock pid)
    from_normal ← with_lock normal_lock (remove_from normal_lock pid)
    from_low ← with_lock low_lock (remove_from low_lock pid)
    acquire current_lock
    q ← get
    let from_current = is_current pid q.current_process
    (if from_current then put (record q { current_process = none }) else pure tt)
    let removed = from_ready || from_high || from_normal || from_low || from_current
    (if removed then update_load else pure tt)
    release current_lock
    pure removed

  abbrev pub run_as_current : ℕ → Op (Option ℕ)
  run_as_current pid = do
    modify pid (λ p. increment_context_switches (set_state running p))
    q ← get
    put (record q { current_process = some pid; context_switches = add64 q.context_switches 1 })
    pure (some pid)

  unfoldable pub get_next_ready_process : Op (Option ℕ)
  get_next_ready_process =
      if_popped high_lock (λ pid. pure (some pid))
        (if_popped normal_lock (λ pid. pure (some pid))
          (if_popped low_lock (λ pid. pure (some pid)) (with_lock ready_lock (pop ready_lock))))

  abbrev current_is_running : Op Bool
  current_is_running s = returned s (runs s.queue.current_process s.processes)

  abbrev pub run_next : Option ℕ → Op (Option ℕ)
  run_next none = pure none
  run_next (some pid) = run_as_current pid

  unfoldable pub round_robin_schedule : Op (Option ℕ)
  round_robin_schedule = do
    acquire current_lock
    q ← get
    continues ← current_is_running
    (if continues then (do release current_lock; pure q.current_process) else (do
      next ← get_next_ready_process
      chosen ← run_next next
      release current_lock
      pure chosen))

  -- The guard of the queue is held while the lock of the current process is taken.
  unfoldable pub priority_schedule : Op (Option ℕ)
  priority_schedule =
      if_popped high_lock (λ pid. with_lock current_lock (run_as_current pid))
        (if_popped normal_lock (λ pid. with_lock current_lock (run_as_current pid))
          (if_popped low_lock (λ pid. with_lock current_lock (run_as_current pid)) (pure none)))

  unfoldable pub realtime_schedule : Op (Option ℕ)
  unfolding get_next_ready_process
  realtime_schedule = do
    acquire current_lock
    q ← get
    continues ← current_is_running
    priority ← elim q.current_process [ none ↦ pure 0 | some pid ↦ priority_of pid ]
    chosen ←
        (if continues && leb 128 priority
          then pure q.current_process
          else if_popped high_lock run_as_current
              (if continues then pure q.current_process else get_next_ready_process))
    release current_lock
    pure chosen

  unfoldable pub get_next_process : SchedulingPolicy → Op (Option ℕ)
  unfolding round_robin_schedule priority_schedule realtime_schedule
  get_next_process round_robin = round_robin_schedule
  get_next_process priority_based = priority_schedule
  get_next_process real_time = realtime_schedule

  unfoldable pub preempt_current : Op (Unit {0})
  preempt_current = do
    acquire current_lock
    q ← get
    was_running ← current_is_running
    put (record q { current_process = none })
    (elim q.current_process [
      | none ↦ pure tt
      | some pid ↦
          if was_running then (do modify pid (set_state ready); add_process pid) else pure tt
    ])
    release current_lock

  unfoldable pub age_processes : Op (Unit {0})
  age_processes = do
    acquire low_lock
    acquire normal_lock
    q ← get
    (if q.last_tick % 100 == 0
        then (do
          front ← pop low_lock
          elim front [ none ↦ pure tt | some pid ↦ push normal_lock pid ])
        else pure tt)
    release normal_lock
    release low_lock

  unfoldable pub timer_tick : ℕ → Op (Unit {0})
  unfolding age_processes
  timer_tick tick = do
    q ← get
    put (record q { last_tick = tick })
    current ← with_lock current_lock (λ s. returned s s.queue.current_process)
    r ← get
    put (elim current [
      | none ↦ record r { idle_ticks = add64 r.idle_ticks 1 }
      | some pid ↦ record r { active_ticks = add64 r.active_ticks 1 }
    ])
    age_processes

  -- Each guard lives while the load is computed.
  unfoldable pub steal_process : Op (Option ℕ)
  unfolding update_load
  steal_process =
      if_popped low_lock (λ pid. do update_load; pure (some pid))
        (if_popped normal_lock (λ pid. do update_load; pure (some pid))
          (if_popped high_lock (λ pid. do update_load; pure (some pid)) (pure none)))
