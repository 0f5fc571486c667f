-- ===== src/Wal/Manager.antt =====
-- wal/wal_core.rs: `WalManager`, over the disk that its calls read and write.
pub mod Recovery
pub mod Reuse
use iedb_agent.Base.{
  ℕ, suc, ◌+◌, ◌%◌, ◌^◌, ◌≡◌, refl, List, [], ◌∷◌, ◌++◌, Option, none, some, arith, length, leb,
  foldl, if◌then◌else◌,
}
use iedb_agent.Base.Int.{ℤ}
use iedb_agent.Base.Text.{Str, Bytes}
use iedb_agent.Base.Dict.{Dict, insert}
use iedb_agent.Buffer.{Buffer}
use iedb_agent.Wal.{WalOp, WalContents}
use iedb_agent.Wal.Apply.{apply_ops}
use iedb_agent.Wal.Serialize.{Codec, Decoded, ok, err, serialize_to_file, deserialize_from_file}
use iedb_agent.Wal.Files.{Disk, wal_file_path, max_wal_seq, files_above, sort_by_seq}

-- The two directories are fields of `Disk`.
pub record WalManager : Type 0 where
  pub current_seq : ℕ
  pub op_count : ℕ
  pub op_limit : ℕ
  pub pending_ops : List WalOp

pub data WalError : Type 0 where
  buffer_full : ℕ → WalError
  write_error : ℕ → Str → WalError

pub data WalResult (A : Type 0) : Type 0 where
  done : A → WalResult A
  failed : WalError → WalResult A

abbrev pub next_seq : Option ℕ → ℕ
next_seq none = 1
next_seq (some s) = (s + 1) % 2 ^ 64

-- `WalManager::new`; the snapshot's number is loaded there and not used.
unfoldable pub new : Disk → ℕ → WalManager
unfolding max_wal_seq
new disk max_write_buffer_ops = record {
  current_seq = next_seq (max_wal_seq disk.wal_dir);
  op_count = 0;
  op_limit = max_write_buffer_ops;
  pending_ops = [];
}

unfoldable pub current_sequence : WalManager → ℕ
current_sequence wm = wm.current_seq

unfoldable pub buffer_op : WalOp → WalManager → WalResult (Unit {0}) × WalManager
buffer_op op wm = if leb wm.op_limit wm.op_count then (failed (buffer_full wm.op_count), wm) else (
  done tt,
  record wm { op_count = wm.op_count + 1; pending_ops = wm.pending_ops ++ op ∷ [] },
)

-- What the file system answers to the write of a file: done, or an error, with what is then left
-- under the name if it was touched.
pub data WriteOutcome : Type 0 where
  written : WriteOutcome
  refused : Str → Option (Option Bytes) → WriteOutcome

abbrev pub Flushed : Type 0
Flushed = WalResult (ℕ × List WalOp) × WalManager × Disk

abbrev pub left_on : Option (Option Bytes) → Str → Disk → Disk
left_on none path disk = disk
left_on (some bytes) path disk = record disk { wal_dir = insert path bytes disk.wal_dir }

module _ (codec : Codec) where
  unfoldable pub flush_ops : ℤ → WriteOutcome → List WalOp → WalManager → Disk → Flushed
  unfolding serialize_to_file wal_file_path insert
  flush_ops now_ms written ops wm disk =
      let contents : WalContents = record {
        wal_file_number = wm.current_seq;
        ops = ops;
        persist_timestamp_ms = now_ms;
      } in
      let bytes = serialize_to_file codec contents in
      let path = wal_file_path wm.current_seq in
      (
        done (wm.current_seq, ops),
        record wm { pending_ops = []; op_count = 0; current_seq = (wm.current_seq + 1) % 2 ^ 64 },
        record disk { wal_dir = insert path (some bytes) disk.wal_dir },
      )
  flush_ops now_ms (refused e left) ops wm disk = (
    failed (write_error wm.current_seq e),
    record wm { pending_ops = []; op_count = 0 },
    left_on left (wal_file_path wm.current_seq) disk,
  )

  unfoldable pub flush_pending : ℤ → WriteOutcome → List WalOp → WalManager → Disk → Flushed
  flush_pending now_ms outcome [] wm disk = (done (0, []), wm, disk)
  flush_pending now_ms outcome (op ∷ ops) wm disk = flush_ops now_ms outcome (op ∷ ops) wm disk

  unfoldable pub flush : ℤ → WriteOutcome → WalManager → Disk → Flushed
  unfolding flush_pending flush_ops
  flush now_ms outcome wm disk = flush_pending now_ms outcome wm.pending_ops wm disk

  -- An unreadable or corrupted file is skipped.
  unfoldable pub replay_contents : ℕ → Decoded WalContents → Buffer → Buffer
  unfolding apply_ops
  replay_contents seq (ok contents) buffer = apply_ops seq contents.ops buffer
  replay_contents seq (err e) buffer = buffer

  unfoldable pub replay_bytes : ℕ → Option Bytes → Buffer → Buffer
  unfolding replay_contents deserialize_from_file
  replay_bytes seq none buffer = buffer
  replay_bytes seq (some bytes) buffer =
      replay_contents seq (deserialize_from_file codec bytes) buffer

  unfoldable pub replay_file : Buffer → ℕ × Option Bytes → Buffer
  unfolding replay_bytes
  replay_file buffer (seq, bytes) = replay_bytes seq bytes buffer

  unfoldable pub replay_files : List (ℕ × Option Bytes) → Buffer → Buffer
  unfolding replay_file
  replay_files files buffer = foldl replay_file buffer files

abbrev seq_or_zero : Option ℕ → ℕ
seq_or_zero none = 0
seq_or_zero (some seq) = seq

abbrev decoded_or_zero : (Bytes → Option ℕ) → Option Bytes → ℕ
decoded_or_zero read_meta none = 0
decoded_or_zero read_meta (some bytes) = seq_or_zero (read_meta bytes)

-- `read_meta` is `serde_json::from_str::<SnapshotMeta>`, its field alone.
unfoldable pub load_last_snapshot : (Bytes → Option ℕ) → Disk → ℕ
load_last_snapshot read_meta disk = decoded_or_zero read_meta disk.last_snapshot

unfoldable pub replay : Codec → (Bytes → Option ℕ) → Disk → Buffer → Buffer
unfolding replay_files files_above sort_by_seq load_last_snapshot
replay codec read_meta disk buffer =
    replay_files codec (sort_by_seq (files_above (load_last_snapshot read_meta disk) disk.wal_dir))
      buffer
