-- ===== src/Server/Locks/Order.antt =====
-- main.rs, http/, agent/ and flush/: the order of the two mutexes, and progress.
use iedb_agent.Base.{
  ℕ, zero, suc, ◌≡◌, ◌⊎◌, refl, Bool, true, false, List, [], ◌∷◌, ◌++◌, map, All, any_of, arith,
  Bool-cases, inl, inr,
}
use iedb_agent.Server.Locks.{
  buffer_lock, wal_lock, LockStep, acquire, release, Task, write_locks, query_locks,
  heartbeat_locks, flush_tick_locks, flush_table_locks, scheduler_locks, TableEnd, no_table,
  not_uploaded, no_metadata, finished, holds, held, allowed, ready, advance, step_in, run_tasks,
  spawned,
}

-- The steps of a task with the given guards: it takes the buffer only without the WAL, gives back
-- what it has, and has nothing at the end.
abbrev pub IsOrdered : Bool → Bool → List LockStep → Type 0
IsOrdered b w [] = (b ≡ false) × (w ≡ false)
IsOrdered b w (acquire buffer_lock ∷ rest) = (b ≡ false) × (w ≡ false) × IsOrdered true w rest
IsOrdered b w (acquire wal_lock ∷ rest) = (w ≡ false) × IsOrdered b true rest
IsOrdered b w (release buffer_lock ∷ rest) = (b ≡ true) × IsOrdered false w rest
IsOrdered b w (release wal_lock ∷ rest) = (w ≡ true) × IsOrdered b false rest

abbrev pub IsOrderedTask : Task → Type 0
IsOrderedTask task = IsOrdered task.has_buffer task.has_wal task.rest

pub IsOrdered-append :
    (b w : Bool) (xs ys : List LockStep)
    → IsOrdered b w xs
    → IsOrdered false false ys
    → IsOrdered b w (xs ++ ys)
IsOrdered-append b w [] ys h k = rw (h.0, h.1) k
IsOrdered-append b w (acquire buffer_lock ∷ xs) ys h k =
    (h.0, h.1, IsOrdered-append true w xs ys h.2 k)
IsOrdered-append b w (acquire wal_lock ∷ xs) ys h k = (h.0, IsOrdered-append b true xs ys h.1 k)
IsOrdered-append b w (release buffer_lock ∷ xs) ys h k = (h.0, IsOrdered-append false w xs ys h.1 k)
IsOrdered-append b w (release wal_lock ∷ xs) ys h k = (h.0, IsOrdered-append b false xs ys h.1 k)

advance-IsOrdered : (task : Task) → IsOrderedTask task → IsOrderedTask (advance task.rest task)
advance-IsOrdered task h = go task.rest h
  where
    go :
        (rest : List LockStep)
        → IsOrdered task.has_buffer task.has_wal rest
        → IsOrderedTask (advance rest (record task { rest = rest }))
    go [] h = h
    go (acquire buffer_lock ∷ rest) h = h.2
    go (acquire wal_lock ∷ rest) h = h.1
    go (release buffer_lock ∷ rest) h = h.1
    go (release wal_lock ∷ rest) h = h.1

pub step_in-IsOrdered :
    (all : List Task) (i : ℕ) (tasks : List Task)
    → All IsOrderedTask tasks
    → All IsOrderedTask (step_in all i tasks)
unfolding step_in
step_in-IsOrdered all i [] h = tt
step_in-IsOrdered all zero (task ∷ tasks) h = elim (Bool-cases (ready all task)) [
  | inl can ↦ rw can (advance-IsOrdered task h.0, h.1)
  | inr waits ↦ rw waits h
]
step_in-IsOrdered all (suc i) (task ∷ tasks) h = (h.0, step_in-IsOrdered all i tasks h.1)

pub run_tasks-IsOrdered :
    (schedule : List ℕ) (tasks : List Task)
    → All IsOrderedTask tasks
    → All IsOrderedTask (run_tasks schedule tasks)
unfolding run_tasks
run_tasks-IsOrdered [] tasks h = h
run_tasks-IsOrdered (i ∷ schedule) tasks h =
    run_tasks-IsOrdered schedule (step_in tasks i tasks) (step_in-IsOrdered tasks i tasks h)

abbrev pub IsFinished : Task → Type 0
IsFinished task = task.rest ≡ []

-- A task with the WAL only gives guards back; one with the buffer takes at most the WAL.
ready-with_wal :
    (all : List Task) (b w : Bool) (rest : List LockStep)
    → IsOrdered b w rest
    → w ≡ true
    → allowed all rest ≡ true
ready-with_wal all b w [] h e = absurd (ground (arith, h.1, e))
ready-with_wal all b w (acquire buffer_lock ∷ rest) h e = absurd (ground (arith, h.1, e))
ready-with_wal all b w (acquire wal_lock ∷ rest) h e = absurd (ground (arith, h.0, e))
ready-with_wal all b w (release l ∷ rest) h e = refl

ready-with_buffer :
    (all : List Task) (b w : Bool) (rest : List LockStep)
    → held wal_lock all ≡ false
    → IsOrdered b w rest
    → b ≡ true
    → allowed all rest ≡ true
ready-with_buffer all b w [] wal_free h e = absurd (ground (arith, h.0, e))
ready-with_buffer all b w (acquire buffer_lock ∷ rest) wal_free h e =
    absurd (ground (arith, h.0, e))
ready-with_buffer all b w (acquire wal_lock ∷ rest) wal_free h e = rw wal_free refl
ready-with_buffer all b w (release l ∷ rest) wal_free h e = refl

ready-free :
    (all : List Task) (rest : List LockStep)
    → held wal_lock all ≡ false
    → held buffer_lock all ≡ false
    → (allowed all rest ≡ true) ⊎ (rest ≡ [])
ready-free all [] wal_free buffer_free = inr refl
ready-free all (acquire buffer_lock ∷ rest) wal_free buffer_free = inl (rw buffer_free refl)
ready-free all (acquire wal_lock ∷ rest) wal_free buffer_free = inl (rw wal_free refl)
ready-free all (release l ∷ rest) wal_free buffer_free = inl refl

some-ready :
    (p q : Task → Bool) (tasks : List Task)
    → ((task : Task) → IsOrderedTask task → p task ≡ true → q task ≡ true)
    → All IsOrderedTask tasks
    → any_of p tasks ≡ true
    → any_of q tasks ≡ true
some-ready p q [] f h e = e
some-ready p q (task ∷ tasks) f h e = elim (Bool-cases (p task)) [
  | inl is ↦ rw (f task h.0 is) refl
  | inr other ↦ let rest = some-ready p q tasks f h.1 (rw other at e) in ground (arith, rest)
]

all-IsFinished :
    (all tasks : List Task)
    → held wal_lock all ≡ false
    → held buffer_lock all ≡ false
    → (any_of (ready all) tasks ≡ true) ⊎ All IsFinished tasks
all-IsFinished all [] wal_free buffer_free = inr tt
all-IsFinished all (task ∷ tasks) wal_free buffer_free =
    elim (ready-free all task.rest wal_free buffer_free) [
      | inl can ↦ inl (rw can refl)
      | inr done ↦ elim (all-IsFinished all tasks wal_free buffer_free) [
        | inl some_can ↦ inl (ground (arith, some_can))
        | inr others ↦ inr (done, others)
      ]
    ]

pub progress :
    (tasks : List Task)
    → All IsOrderedTask tasks
    → (any_of (ready tasks) tasks ≡ true) ⊎ All IsFinished tasks
progress tasks h = elim (Bool-cases (held wal_lock tasks)) [
  | inl wal ↦ inl (
      some-ready (holds wal_lock) (ready tasks) tasks
        (λ task k e. ready-with_wal tasks task.has_buffer task.has_wal task.rest k e) h wal)
  | inr wal_free ↦ elim (Bool-cases (held buffer_lock tasks)) [
    | inl buffer ↦ inl (
        some-ready (holds buffer_lock) (ready tasks) tasks
          (λ task k e. ready-with_buffer tasks task.has_buffer task.has_wal task.rest wal_free k e)
          h buffer)
    | inr buffer_free ↦ all-IsFinished tasks tasks wal_free buffer_free
  ]
]

-- What tasks do between two rounds of their loops, without a flush that has writes.
pub data Round : Type 0 where
  a_write : Bool → Round
  a_query a_heartbeat an_empty_tick : Round
  a_check : Bool → Round
  a_table : TableEnd → Round

unfoldable pub round_locks : Round → List LockStep
unfolding write_locks query_locks heartbeat_locks flush_tick_locks flush_table_locks scheduler_locks
round_locks (a_write flushed) = write_locks flushed
round_locks a_query = query_locks
round_locks a_heartbeat = heartbeat_locks
round_locks an_empty_tick = flush_tick_locks 0
round_locks (a_check due) = scheduler_locks due
round_locks (a_table ending) = flush_table_locks ending

abbrev pub rounds_locks : List Round → List LockStep
rounds_locks [] = []
rounds_locks (r ∷ rs) = round_locks r ++ rounds_locks rs

round_locks-IsOrdered : (r : Round) → IsOrdered false false (round_locks r)
unfolding round_locks write_locks query_locks heartbeat_locks flush_tick_locks flush_table_locks
    scheduler_locks
round_locks-IsOrdered (a_write true) = (refl, (refl, (refl, refl, (refl, (refl, refl)))))
round_locks-IsOrdered (a_write false) = (refl, (refl, (refl, refl)))
round_locks-IsOrdered a_query = (refl, refl, (refl, (refl, refl)))
round_locks-IsOrdered a_heartbeat = (refl, refl, (refl, (refl, refl)))
round_locks-IsOrdered an_empty_tick = (refl, (refl, (refl, refl)))
round_locks-IsOrdered (a_check true) = (refl, refl, (refl, (refl, refl, (refl, (refl, refl)))))
round_locks-IsOrdered (a_check false) = (refl, refl, (refl, (refl, refl)))
round_locks-IsOrdered (a_table no_table) = (refl, refl, (refl, (refl, refl)))
round_locks-IsOrdered (a_table not_uploaded) =
    (refl, refl, (refl, (refl, refl, (refl, (refl, refl)))))
round_locks-IsOrdered (a_table (no_metadata true)) =
    (refl, refl, (refl, (refl, refl, (refl, (refl, refl, (refl, (refl, (refl, (refl, refl)))))))))
round_locks-IsOrdered (a_table (finished true)) = (
  refl,
  refl,
  (refl, (refl, refl, (refl, (refl, refl, (refl, (refl, (refl, (refl, (refl, (refl, refl)))))))))),
)
round_locks-IsOrdered (a_table (no_metadata false)) =
    (refl, refl, (refl, (refl, refl, (refl, (refl, refl, (refl, (refl, refl)))))))
round_locks-IsOrdered (a_table (finished false)) =
    (refl, refl, (refl, (refl, refl, (refl, (refl, refl, (refl, (refl, (refl, (refl, refl)))))))))

rounds_locks-IsOrdered : (rs : List Round) → IsOrdered false false (rounds_locks rs)
rounds_locks-IsOrdered [] = (refl, refl)
rounds_locks-IsOrdered (r ∷ rs) =
    IsOrdered-append false false (round_locks r) (rounds_locks rs) (round_locks-IsOrdered r)
      (rounds_locks-IsOrdered rs)

pub spawned-IsOrdered :
    (tasks : List (List Round)) → All IsOrderedTask (map (λ rs. spawned (rounds_locks rs)) tasks)
spawned-IsOrdered [] = tt
spawned-IsOrdered (rs ∷ tasks) = (rounds_locks-IsOrdered rs, spawned-IsOrdered tasks)

-- Any number of tasks, each with any rounds of write requests, queries, heartbeats, checks, tables of
-- a snapshot and flushes that find no operation: after any interleaving of their steps some task can
-- do its next one, or all are finished.
pub run_tasks-progress :
    (tasks : List (List Round)) (schedule : List ℕ)
    → let now = run_tasks schedule (map (λ rs. spawned (rounds_locks rs)) tasks) in
      (any_of (ready now) now ≡ true) ⊎ All IsFinished now
run_tasks-progress tasks schedule =
    let start = map (λ rs. spawned (rounds_locks rs)) tasks in
    progress (run_tasks schedule start)
      (run_tasks-IsOrdered schedule start (spawned-IsOrdered tasks))
