-- ===== src/Flush/Snapshot/Numbered.antt =====
-- flush/scheduler.rs and wal/wal_core.rs: the WAL numbers of the chunks that a snapshot reads.
use iedb_agent.Base.{ℕ, ◌≤◌, ◌<◌, ◌≢◌, refl, List, [], ◌∷◌, arith, length, All}
use iedb_agent.Base.Int.{u64_max}
use iedb_agent.Base.Text.{Str}
use iedb_agent.Buffer.{Buffer}
use iedb_agent.Buffer.Chunk
use iedb_agent.Buffer.Chunk.{Row, Chunk}
use iedb_agent.Wal.{WriteBatch, WalOp, write, noop}
use iedb_agent.Wal.Apply.{apply_write_batch, apply_op, apply_ops}
use iedb_agent.Wal.Rows.{insert_rows-least}
use iedb_agent.Wal.Cells.{filled}
use iedb_agent.Wal.Everywhere.{apply_write_batch-Everywhere}
use iedb_agent.Buffer.Everywhere.{Everywhere}
use iedb_agent.Flush.Snapshot.Sequence.{IsNumbered}

-- The operation writes at least one row.
abbrev pub HasRows : WalOp → Type 0
HasRows (write batch) = batch.rows ≢ []
HasRows noop = Unit

module _ (seq : ℕ) (low : 1 ≤ seq) (high : seq < u64_max) where
  filled-IsNumbered :
      (keys : List Str) (rows : List Row) (c : Chunk)
      → rows ≢ []
      → 1 ≤ c.min_wal_seq
      → IsNumbered (filled keys seq rows c)
  filled-IsNumbered keys [] c some_row h = absurd (some_row refl)
  filled-IsNumbered keys (row ∷ rows) c some_row h =
      rw (insert_rows-least keys seq (length c.rows) 0 (row ∷ rows) c) (ground arith)

  apply_write_batch-IsNumbered :
      (batch : WriteBatch) (buffer : Buffer)
      → batch.rows ≢ []
      → Everywhere IsNumbered buffer.databases
      → Everywhere IsNumbered (apply_write_batch buffer batch seq).databases
  apply_write_batch-IsNumbered batch buffer rows h =
      apply_write_batch-Everywhere IsNumbered batch seq
        (λ keys. filled-IsNumbered keys batch.rows (Chunk.new batch.chunk_time) rows (omega arith))
        (λ keys c k. filled-IsNumbered keys batch.rows c rows k.0) buffer h

  -- If every operation writes at least one row and the file's number is from 1 to below the greatest,
  -- applying them to a buffer whose chunks all have such a number keeps it so.
  pub apply_ops-IsNumbered :
      (ops : List WalOp) (buffer : Buffer)
      → All HasRows ops
      → Everywhere IsNumbered buffer.databases
      → Everywhere IsNumbered (apply_ops seq ops buffer).databases
  unfolding apply_ops apply_op
  apply_ops-IsNumbered [] buffer rows h = h
  apply_ops-IsNumbered (write batch ∷ ops) buffer rows h =
      apply_ops-IsNumbered ops (apply_write_batch buffer batch seq) rows.1
        (apply_write_batch-IsNumbered batch buffer rows.0 h)
  apply_ops-IsNumbered (noop ∷ ops) buffer rows h = apply_ops-IsNumbered ops buffer rows.1 h
