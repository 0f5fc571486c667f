-- ===== src/Wal.antt =====
-- wal/mod.rs: what a WAL file holds.
pub mod Apply
pub mod Rows
pub mod Growth
pub mod Valid
pub mod Cells
pub mod Contents
pub mod Everywhere
pub mod Serialize
pub mod Files
pub mod Manager
use iedb_agent.Base.{ℕ, List}
use iedb_agent.Base.Int.{ℤ}
use iedb_agent.Base.Text.{Str}
use iedb_agent.Buffer.Chunk.{Row}

-- A batch of writes to one table.
pub record WriteBatch : Type 0 where
  pub db_name : Str
  pub table_name : Str
  pub chunk_time : ℤ
  pub field_names : List Str
  pub tag_keys : List Str
  pub rows : List Row

pub data WalOp : Type 0 where
  write : WriteBatch → WalOp
  noop : WalOp

pub record WalContents : Type 0 where
  pub wal_file_number : ℕ
  pub ops : List WalOp
  pub persist_timestamp_ms : ℤ
