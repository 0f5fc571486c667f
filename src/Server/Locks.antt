-- ===== src/Server/Locks.antt =====
-- main.rs, http/, agent/ and flush/: the two mutexes that the tasks share, the order in which each
-- task takes them, and the interleavings of tasks.
pub mod Order
pub mod Finish
pub mod Deadlock
use iedb_agent.Base.{
  ℕ, zero, suc, Bool, true, false, not, List, [], ◌∷◌, ◌++◌, any_of, is_empty, if◌then◌else◌,
}

pub data Lock : Type 0 where
  buffer_lock wal_lock : Lock

pub data LockStep : Type 0 where
  acquire : Lock → LockStep
  release : Lock → LockStep

-- A task: the guards that it has, and what it does with the mutexes from here on. What it does between
-- two of these steps needs no other task.
pub record Task : Type 0 where
  pub has_buffer : Bool
  pub has_wal : Bool
  pub rest : List LockStep

-- A guard that lives in a block, with the given steps in that block.
abbrev pub guarded : Lock → List LockStep → List LockStep
guarded l steps = acquire l ∷ steps ++ release l ∷ []

-- `WriteHandler::handle` of a request that reaches the WAL; the operations are applied if the flush
-- succeeds.
unfoldable pub write_locks : Bool → List LockStep
write_locks flushed = guarded wal_lock [] ++ (if flushed then guarded buffer_lock [] else [])

-- `QueryHandler::handle` of a request with a table.
unfoldable pub query_locks : List LockStep
query_locks = guarded buffer_lock []

-- One round of `heartbeat_loop`.
unfoldable pub heartbeat_locks : List LockStep
heartbeat_locks = guarded buffer_lock []

abbrev applied_locks : ℕ → List LockStep
applied_locks zero = []
applied_locks (suc n) = guarded buffer_lock [] ++ applied_locks n

-- One round of the WAL flush task, with the number of writes that it flushes: the guard of the WAL is
-- a temporary of the scrutinee of the `match`, and lives until its end.
unfoldable pub flush_tick_locks : ℕ → List LockStep
flush_tick_locks writes = guarded wal_lock (applied_locks writes)

-- The numbers of chunks left, or the fallback if there is none. The guard of the WAL is a temporary of
-- the body of the `if`, and is dropped before the local `buf`.
abbrev numbering_locks : Bool → List LockStep
numbering_locks empty = guarded buffer_lock (if empty then guarded wal_lock [] else [])

-- How a round of the loop of `do_snapshot` ends: no table at the first read, which ends the snapshot;
-- no upload, because there is no table at the second read, or an error, or the chunks are staged; no
-- metadata after the removal, which left no chunk or some; all of it.
pub data TableEnd : Type 0 where
  no_table not_uploaded : TableEnd
  no_metadata finished : Bool → TableEnd

-- One round of the loop of `do_snapshot`: the clones of the chunks and of the table, and after an
-- accepted upload the removal with the number, and the clean-up once the metadata is written.
unfoldable pub flush_table_locks : TableEnd → List LockStep
flush_table_locks no_table = guarded buffer_lock []
flush_table_locks not_uploaded = guarded buffer_lock [] ++ guarded buffer_lock []
flush_table_locks (no_metadata empty) =
    guarded buffer_lock [] ++ guarded buffer_lock [] ++ numbering_locks empty
flush_table_locks (finished empty) =
    guarded buffer_lock [] ++ guarded buffer_lock [] ++ numbering_locks empty ++ guarded wal_lock []

-- The check of the memory in `run`, and the selection at the start of `do_snapshot` if one is due.
unfoldable pub scheduler_locks : Bool → List LockStep
scheduler_locks due = guarded buffer_lock [] ++ (if due then guarded buffer_lock [] else [])

abbrev pub holds : Lock → Task → Bool
holds buffer_lock task = task.has_buffer
holds wal_lock task = task.has_wal

abbrev pub held : Lock → List Task → Bool
held l tasks = any_of (holds l) tasks

-- A mutex can be taken if no task has it; tokio's are not reentrant.
abbrev pub allowed : List Task → List LockStep → Bool
allowed tasks [] = false
allowed tasks (acquire l ∷ _) = not (held l tasks)
allowed tasks (release l ∷ _) = true

abbrev pub ready : List Task → Task → Bool
ready tasks task = allowed tasks task.rest

abbrev pub set_guard : Lock → Bool → List LockStep → Task → Task
set_guard buffer_lock b rest task = record task { has_buffer = b; rest = rest }
set_guard wal_lock b rest task = record task { has_wal = b; rest = rest }

abbrev pub advance : List LockStep → Task → Task
advance [] task = task
advance (acquire l ∷ rest) task = set_guard l true rest task
advance (release l ∷ rest) task = set_guard l false rest task

abbrev pub advance_if : Bool → Task → Task
advance_if can task = if can then advance task.rest task else task

-- The task at an index does its next step, or waits; `all` are the tasks whose guards count.
unfoldable pub step_in : List Task → ℕ → List Task → List Task
step_in all i [] = []
step_in all zero (task ∷ tasks) = advance_if (ready all task) task ∷ tasks
step_in all (suc i) (task ∷ tasks) = task ∷ step_in all i tasks

-- The tasks whose turn it is, one after the other.
unfoldable pub run_tasks : List ℕ → List Task → List Task
unfolding step_in
run_tasks [] tasks = tasks
run_tasks (i ∷ schedule) tasks = run_tasks schedule (step_in tasks i tasks)

-- A task that starts.
abbrev pub spawned : List LockStep → Task
spawned steps = record { has_buffer = false; has_wal = false; rest = steps }
