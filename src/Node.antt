-- ===== src/Node.antt =====
-- What the tasks of main.rs share: the buffer, the WAL manager and the disk; and the background
-- WAL flush.
pub mod Recovered
pub mod Safe
pub mod Log
pub mod Covered
pub mod Numbers
use iedb_agent.Base.{ℕ, List, [], ◌∷◌, Option}
use iedb_agent.Base.Int.{ℤ}
use iedb_agent.Base.Text.{Bytes}
use iedb_agent.Buffer
use iedb_agent.Buffer.{Buffer}
use iedb_agent.Wal.Apply.{apply_ops}
use iedb_agent.Wal.Files.{Disk}
use iedb_agent.Wal.Serialize.{Codec}
use iedb_agent.Wal.Manager
use iedb_agent.Wal.Manager.{
  WalManager, WalResult, WriteOutcome, Flushed, done, failed, flush, replay,
}

pub record Node : Type 0 where
  pub buffer : Buffer
  pub wal : WalManager
  pub disk : Disk

-- The operations of a successful flush go into the buffer.
abbrev pub apply_flushed : Flushed → Buffer → Node
apply_flushed (done (seq, ops), wal, disk) buffer = record {
  buffer = apply_ops seq ops buffer;
  wal = wal;
  disk = disk;
}
apply_flushed (failed e, wal, disk) buffer = record { buffer = buffer; wal = wal; disk = disk }

-- One round of the background task.
unfoldable pub flush_tick : Codec → ℤ → WriteOutcome → Node → Node
unfolding flush
flush_tick codec now_ms outcome node =
    apply_flushed (flush codec now_ms outcome node.wal node.disk) node.buffer

-- Start-up: an empty buffer, the manager, and the replay.
unfoldable pub boot : Codec → (Bytes → Option ℕ) → ℕ → Disk → Node
unfolding Manager.new replay
boot codec read_meta max_write_buffer_ops disk = record {
  buffer = replay codec read_meta disk Buffer.new;
  wal = Manager.new disk max_write_buffer_ops;
  disk = disk;
}
