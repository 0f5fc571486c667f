-- ===== src/Server/Locks/Deadlock.antt =====
-- main.rs and flush/scheduler.rs: the WAL flush task and a snapshot, which take the two mutexes in
-- opposite orders.
use iedb_agent.Base.{
  ℕ, zero, suc, ◌≡◌, refl, ◌∙◌, Bool, true, false, ◌&&◌, List, [], ◌∷◌, ◌++◌, any_of, arith,
  Bool-cases, inl, inr,
}
use iedb_agent.Server.Locks.{
  Lock, buffer_lock, wal_lock, LockStep, acquire, release, Task, flush_tick_locks,
  flush_table_locks, finished, holds, held, allowed, ready, advance, advance_if, step_in, run_tasks,
  spawned,
}

abbrev same_lock : Lock → Lock → Bool
same_lock buffer_lock buffer_lock = true
same_lock buffer_lock wal_lock = false
same_lock wal_lock buffer_lock = false
same_lock wal_lock wal_lock = true

abbrev next_takes : Lock → List LockStep → Bool
next_takes l [] = false
next_takes l (acquire k ∷ _) = same_lock l k
next_takes l (release k ∷ _) = false

-- A task that has one mutex and is about to take the other.
abbrev pub has_and_wants : Lock → Lock → Task → Bool
has_and_wants has wants task = holds has task && next_takes wants task.rest

wants-waits :
    (all : List Task) (l : Lock) (rest : List LockStep)
    → held l all ≡ true
    → next_takes l rest ≡ true
    → allowed all rest ≡ false
wants-waits all l [] h e = refl
wants-waits all buffer_lock (acquire buffer_lock ∷ rest) h e = rw h refl
wants-waits all wal_lock (acquire wal_lock ∷ rest) h e = rw h refl
wants-waits all buffer_lock (acquire wal_lock ∷ rest) h e = ground (arith, e)
wants-waits all wal_lock (acquire buffer_lock ∷ rest) h e = ground (arith, e)
wants-waits all l (release k ∷ rest) h e = ground (arith, e)

module _ (has wants : Lock) where
  some-held :
      (tasks : List Task) → any_of (has_and_wants has wants) tasks ≡ true → held has tasks ≡ true
  some-held [] e = e
  some-held (task ∷ tasks) e = elim (Bool-cases (holds has task)) [
    | inl it ↦ rw it refl
    | inr other ↦ rw other (some-held tasks (rw other at e))
  ]

  stays :
      (all : List Task) (task : Task)
      → held wants all ≡ true
      → has_and_wants has wants task ≡ true
      → has_and_wants has wants (advance_if (ready all task) task) ≡ true
  stays all task h e =
      let next : next_takes wants task.rest ≡ true = ground (arith, e) in
      rw (wants-waits all wants task.rest h next) e

  step_in-stays :
      (all : List Task) (i : ℕ) (tasks : List Task)
      → held wants all ≡ true
      → any_of (has_and_wants has wants) tasks ≡ true
      → any_of (has_and_wants has wants) (step_in all i tasks) ≡ true
  unfolding step_in
  step_in-stays all i [] h e = e
  step_in-stays all zero (task ∷ tasks) h e = elim (Bool-cases (has_and_wants has wants task)) [
    | inl it ↦ rw (stays all task h it) refl
    | inr other ↦
        let rest : any_of (has_and_wants has wants) tasks ≡ true = rw other at e in
        ground (arith, rest)
  ]
  step_in-stays all (suc i) (task ∷ tasks) h e = elim (Bool-cases (has_and_wants has wants task)) [
    | inl it ↦ rw it refl
    | inr other ↦ rw other (step_in-stays all i tasks h (rw other at e))
  ]

-- Both orders are there, each task waiting for the other.
abbrev pub IsDeadlocked : List Task → Type 0
IsDeadlocked tasks =
    (any_of (has_and_wants buffer_lock wal_lock) tasks ≡ true)
    × (any_of (has_and_wants wal_lock buffer_lock) tasks ≡ true)

run_tasks-IsDeadlocked :
    (schedule : List ℕ) (tasks : List Task)
    → IsDeadlocked tasks
    → IsDeadlocked (run_tasks schedule tasks)
unfolding run_tasks
run_tasks-IsDeadlocked [] tasks h = h
run_tasks-IsDeadlocked (i ∷ schedule) tasks h =
    run_tasks-IsDeadlocked schedule (step_in tasks i tasks) (
      step_in-stays buffer_lock wal_lock tasks i tasks (some-held wal_lock buffer_lock tasks h.1)
          h.0,
      step_in-stays wal_lock buffer_lock tasks i tasks (some-held buffer_lock wal_lock tasks h.0)
          h.1,
    )

-- The snapshot clones and takes the buffer, and then the flush task takes the WAL.
abbrev pub fatal : List ℕ
fatal = 1 ∷ 1 ∷ 1 ∷ 1 ∷ 1 ∷ 0 ∷ []

run_tasks-append :
    (xs ys : List ℕ) (tasks : List Task)
    → run_tasks (xs ++ ys) tasks ≡ run_tasks ys (run_tasks xs tasks)
unfolding run_tasks
run_tasks-append [] ys tasks = refl
run_tasks-append (x ∷ xs) ys tasks = run_tasks-append xs ys (step_in tasks x tasks)

module _ (writes : ℕ) (then_flush then_snapshot : List LockStep) (others : List Task) where
  abbrev pub flush_and_snapshot : List Task
  flush_and_snapshot =
      spawned (flush_tick_locks (suc writes) ++ then_flush)
      ∷ spawned (flush_table_locks (finished true) ++ then_snapshot)
      ∷ others

  module _ (f s : Task) (schedule : List ℕ) where
    first_moves :
        ready (f ∷ s ∷ others) f ≡ true
        → run_tasks (0 ∷ schedule) (f ∷ s ∷ others)
          ≡ run_tasks schedule (advance f.rest f ∷ s ∷ others)
    unfolding run_tasks step_in
    first_moves e = rw e refl

    second_moves :
        ready (f ∷ s ∷ others) s ≡ true
        → run_tasks (1 ∷ schedule) (f ∷ s ∷ others)
          ≡ run_tasks schedule (f ∷ advance s.rest s ∷ others)
    unfolding run_tasks step_in
    second_moves e = rw e refl

  abbrev left_snapshot : List LockStep
  left_snapshot =
      release wal_lock ∷ release buffer_lock ∷ acquire wal_lock ∷ release wal_lock ∷ then_snapshot

  abbrev snapshot_at : Bool → List LockStep → Task
  snapshot_at has rest = record { has_buffer = has; has_wal = false; rest = rest }

  abbrev last_take : List LockStep
  last_take = acquire buffer_lock ∷ acquire wal_lock ∷ left_snapshot

  abbrev second_clone : List LockStep
  second_clone = acquire buffer_lock ∷ release buffer_lock ∷ last_take

  run_fatal :
      held buffer_lock others ≡ false
      → held wal_lock others ≡ false
      → run_tasks fatal flush_and_snapshot
        ≡ advance
            (flush_tick_locks (suc writes) ++ then_flush)
            (spawned (flush_tick_locks (suc writes) ++ then_flush))
          ∷ snapshot_at true (acquire wal_lock ∷ left_snapshot)
          ∷ others
  unfolding flush_tick_locks flush_table_locks run_tasks
  run_fatal h k =
      let f = spawned (flush_tick_locks (suc writes) ++ then_flush) in
      second_moves f (snapshot_at false (acquire buffer_lock ∷ release buffer_lock ∷ second_clone))
        (1 ∷ 1 ∷ 1 ∷ 1 ∷ 0 ∷ []) (rw h refl)
      ∙ second_moves f (snapshot_at true (release buffer_lock ∷ second_clone)) (1 ∷ 1 ∷ 1 ∷ 0 ∷ [])
          refl
      ∙ second_moves f (snapshot_at false second_clone) (1 ∷ 1 ∷ 0 ∷ []) (rw h refl)
      ∙ second_moves f (snapshot_at true (release buffer_lock ∷ last_take)) (1 ∷ 0 ∷ []) refl
      ∙ second_moves f (snapshot_at false last_take) (0 ∷ []) (rw h refl)
      ∙ first_moves f (snapshot_at true (acquire wal_lock ∷ left_snapshot)) [] (rw k refl)

  fatal-IsDeadlocked :
      held buffer_lock others ≡ false
      → held wal_lock others ≡ false
      → IsDeadlocked (run_tasks fatal flush_and_snapshot)
  unfolding flush_tick_locks
  fatal-IsDeadlocked h k = rw (run_fatal h k) (refl, refl)

  -- A flush that finds a write, and a snapshot that leaves no chunk after an accepted upload, beside
  -- any other tasks that have no guard: there is an interleaving of the two after which, whatever steps
  -- the tasks then take, one task has the buffer and waits for the WAL, and one has the WAL and waits
  -- for the buffer.
  pub fatal-run_tasks :
      (schedule : List ℕ)
      → held buffer_lock others ≡ false
      → held wal_lock others ≡ false
      → IsDeadlocked (run_tasks (fatal ++ schedule) flush_and_snapshot)
  fatal-run_tasks schedule h k = rw (run_tasks-append fatal schedule flush_and_snapshot) (
      run_tasks-IsDeadlocked schedule (run_tasks fatal flush_and_snapshot) (fatal-IsDeadlocked h k))
