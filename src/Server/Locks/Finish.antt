-- ===== src/Server/Locks/Finish.antt =====
-- main.rs, http/, agent/ and flush/: tasks that take the mutexes in order, to their ends.
use iedb_agent.Base.{
  ℕ, zero, suc, ◌+◌, ◌≡◌, refl, ap, true, List, [], ◌∷◌, map, length, All, any_of, arith,
  Bool-cases, inl, inr,
}
use iedb_agent.Server.Locks.{
  buffer_lock, wal_lock, LockStep, acquire, release, Task, allowed, ready, advance, step_in,
  run_tasks, spawned,
}
use iedb_agent.Server.Locks.Order.{
  Round, rounds_locks, IsOrderedTask, IsFinished, progress, step_in-IsOrdered, run_tasks-IsOrdered,
  spawned-IsOrdered,
}

-- The steps that are left.
abbrev pub steps_left : List Task → ℕ
steps_left [] = 0
steps_left (task ∷ tasks) = length task.rest + steps_left tasks

advance-shorter :
    (all : List Task) (rest : List LockStep) (task : Task)
    → allowed all rest ≡ true
    → length (advance rest (record task { rest = rest })).rest + 1 ≡ length rest
advance-shorter all [] task e = absurd (ground (arith, e))
advance-shorter all (acquire buffer_lock ∷ rest) task e = omega arith
advance-shorter all (acquire wal_lock ∷ rest) task e = omega arith
advance-shorter all (release buffer_lock ∷ rest) task e = omega arith
advance-shorter all (release wal_lock ∷ rest) task e = omega arith

step_in-shorter :
    (all tasks : List Task)
    → any_of (ready all) tasks ≡ true
    → (i : ℕ) × (steps_left (step_in all i tasks) + 1 ≡ steps_left tasks)
unfolding step_in
step_in-shorter all [] e = absurd (ground (arith, e))
step_in-shorter all (task ∷ tasks) e = elim (Bool-cases (ready all task)) [
  | inl can ↦ (0, rw can (omega (arith, advance-shorter all task.rest task can)))
  | inr waits ↦
      let (i, shorter) = step_in-shorter all tasks (rw waits at e) in
      (suc i, omega (arith, shorter))
]

no_steps-IsFinished : (tasks : List Task) → All IsFinished tasks → steps_left tasks ≡ 0
no_steps-IsFinished [] h = refl
no_steps-IsFinished (task ∷ tasks) h = omega (arith, ap length h.0, no_steps-IsFinished tasks h.1)

finish :
    (n : ℕ) (tasks : List Task)
    → steps_left tasks ≡ n
    → All IsOrderedTask tasks
    → (more : List ℕ) × (length more ≡ n) × All IsFinished (run_tasks more tasks)
unfolding run_tasks
finish zero tasks e h = elim (progress tasks h) [
  | inl can ↦
      let (i, shorter) = step_in-shorter tasks tasks can in absurd (omega (arith, e, shorter))
  | inr done ↦ ([], refl, done)
]
finish (suc n) tasks e h = elim (progress tasks h) [
  | inl can ↦
      let (i, shorter) = step_in-shorter tasks tasks can in
      let (more, size, done) =
        finish n (step_in tasks i tasks) (omega (arith, e, shorter))
          (step_in-IsOrdered tasks i tasks h) in
      (i ∷ more, omega (arith, size), done)
  | inr done ↦ absurd (omega (arith, e, no_steps-IsFinished tasks done))
]

-- Any number of tasks, each with any rounds of write requests, queries, heartbeats, checks, tables of
-- a snapshot and flushes that find no operation: whatever interleaving of their steps has been taken,
-- they can all be finished, by as many further steps as they have left.
pub run_tasks-IsFinished :
    (tasks : List (List Round)) (schedule : List ℕ)
    → let now = run_tasks schedule (map (λ rs. spawned (rounds_locks rs)) tasks) in
      (more : List ℕ) × (length more ≡ steps_left now) × All IsFinished (run_tasks more now)
run_tasks-IsFinished tasks schedule =
    let start = map (λ rs. spawned (rounds_locks rs)) tasks in
    let now = run_tasks schedule start in
    finish (steps_left now) now refl (run_tasks-IsOrdered schedule start (spawned-IsOrdered tasks))
