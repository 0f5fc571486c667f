-- ===== src/Wal/Manager/Reuse.antt =====
-- wal/wal_core.rs: the count of pending operations, and the numbers after a restart.
use iedb_agent.Base.{ℕ, ◌≤◌, ◌≡◌, refl, [], ◌∷◌, Option, arith, length, length-append}
use iedb_agent.Base.Int.{ℤ}
use iedb_agent.Base.Text.{Bytes}
use iedb_agent.Base.Dict.{insert}
use iedb_agent.Buffer.{Buffer}
use iedb_agent.Wal.{WalOp}
use iedb_agent.Wal.Serialize.{Codec}
use iedb_agent.Wal.Files.{
  Disk, wal_file_path, file_seq-wal_file_path, max_wal_seq, files_above, sort_by_seq,
}
use iedb_agent.Wal.Manager.{
  WalManager, WriteOutcome, written, done, new, buffer_op, flush, replay, replay_files,
  load_last_snapshot,
}

-- The count is the number of pending operations, and stays within the limit.
pub record IsCounted (wm : WalManager) : Type 0 where
  pub counted : wm.op_count ≡ length wm.pending_ops
  pub within : wm.op_count ≤ wm.op_limit

pub new-IsCounted : (disk : Disk) (limit : ℕ) → IsCounted (new disk limit)
unfolding new
new-IsCounted disk limit = omega arith

pub buffer_op-IsCounted :
    (op : WalOp) (wm : WalManager) → IsCounted wm → IsCounted (buffer_op op wm).1
unfolding buffer_op
buffer_op-IsCounted op wm h = ground (arith, length-append wm.pending_ops (op ∷ []))

pub flush-IsCounted :
    (codec : Codec) (now_ms : ℤ) (outcome : WriteOutcome) (wm : WalManager) (disk : Disk)
    → IsCounted wm
    → IsCounted (flush codec now_ms outcome wm disk).1
unfolding flush
flush-IsCounted codec now_ms outcome wm disk h = ground arith

abbrev first_pending : ℕ → WalOp → WalManager
first_pending limit op = record {
  current_seq = 1;
  op_count = 1;
  op_limit = limit;
  pending_ops = op ∷ [];
}

buffer_op-new :
    (limit : ℕ) (disk : Disk) (op : WalOp)
    → disk.wal_dir ≡ []
    → 1 ≤ limit
    → (buffer_op op (new disk limit)).1 ≡ first_pending limit op
unfolding new max_wal_seq buffer_op
buffer_op-new limit disk op empty room = rw empty (ground arith)

files_above-insert_one :
    (flushed : ℕ) (bytes : Option Bytes)
    → 1 ≤ flushed
    → files_above flushed (insert (wal_file_path 1) bytes []) ≡ []
unfolding files_above insert
files_above-insert_one flushed bytes h = ground (arith, file_seq-wal_file_path 1)

module _ (codec : Codec) (read_meta : Bytes → Option ℕ) (limit : ℕ) (disk : Disk) (now_ms : ℤ)
    (op : WalOp) (buffer : Buffer) (empty : disk.wal_dir ≡ [])
    (high : 1 ≤ load_last_snapshot read_meta disk) where
  flush_first :
      ((flush codec now_ms written (first_pending limit op) disk).0 ≡ done (1, op ∷ []))
      × (replay codec read_meta (flush codec now_ms written (first_pending limit op) disk).2 buffer
          ≡ buffer)
  unfolding flush replay load_last_snapshot replay_files sort_by_seq
  flush_first = (refl, rw (empty, files_above-insert_one _ _ high))

  -- If every WAL file has been cleaned up and the snapshot's number is 1 or more, a restarted manager
  -- with room for an operation counts from 1 again: what its first flush writes and reports as done,
  -- no replay of that disk applies.
  pub restart_hides_write :
      1 ≤ limit
      → let wm = (buffer_op op (new disk limit)).1 in
        ((flush codec now_ms written wm disk).0 ≡ done (1, op ∷ []))
        × (replay codec read_meta (flush codec now_ms written wm disk).2 buffer ≡ buffer)
  restart_hides_write room = rw (buffer_op-new limit disk op empty room) flush_first
