-- ===== src/Wal/Everywhere.antt =====
-- wal/wal_core.rs: batches and properties of every chunk.
use iedb_agent.Base.{ℕ, List, [], All}
use iedb_agent.Base.Text.{Str}
use iedb_agent.Base.Dict.{Dict}
use iedb_agent.Buffer.{Buffer, get_or_create_table}
use iedb_agent.Buffer.Chunk
use iedb_agent.Buffer.Chunk.{Chunk}
use iedb_agent.Buffer.Table
use iedb_agent.Buffer.Table.{Table}
use iedb_agent.Buffer.Table.Order.{place-All}
use iedb_agent.Buffer.Everywhere.{Tables, Everywhere, All-update}
use iedb_agent.Wal.{WriteBatch}
use iedb_agent.Wal.Apply.{apply_to_table, apply_write_batch}
use iedb_agent.Wal.Cells.{filled}
use iedb_agent.Wal.Valid.{change, chunks-apply_to_table}

module _ {κ} (P : Chunk → Type κ) (batch : WriteBatch) (seq : ℕ)
    (new : (keys : List Str) → P (filled keys seq batch.rows (Chunk.new batch.chunk_time)))
    (keep : (keys : List Str) (c : Chunk) → P c → P (filled keys seq batch.rows c)) where
  apply_to_table-All : (t : Table) → All P t.chunks → All P (apply_to_table batch seq t).chunks
  apply_to_table-All t h =
      rw (chunks-apply_to_table batch seq t)
        (place-All P batch.chunk_time (change batch seq t) (new _) (λ c. keep _ c) t.chunks h)

  -- What holds of every chunk holds after a batch, if it holds of the chunk that the batch fills.
  pub apply_write_batch-Everywhere :
      (buffer : Buffer)
      → Everywhere P buffer.databases
      → Everywhere P (apply_write_batch buffer batch seq).databases
  unfolding apply_write_batch get_or_create_table
  apply_write_batch-Everywhere buffer h =
      let tables = λ (ts : Dict Table).
        All-update (λ (t : Table). All P t.chunks) batch.table_name (Table.new batch.table_name)
          (apply_to_table batch seq) (apply_to_table-All (Table.new batch.table_name) tt)
          apply_to_table-All ts in
      All-update (Tables P) batch.db_name [] _ (tables [] tt) tables buffer.databases h
