-- ===== src/Node/Safe.antt =====
-- main.rs: the start-up and the flush, and the invariant that queries rest on.
use iedb_agent.Base.{ℕ, List, [], ◌∷◌, Option, none, some}
use iedb_agent.Base.Int.{ℤ}
use iedb_agent.Base.Text.{Bytes}
use iedb_agent.Buffer
use iedb_agent.Buffer.{Buffer}
use iedb_agent.Wal.Serialize.{Codec, Decoded, ok, err, deserialize_from_file}
use iedb_agent.Wal.Files.{Disk, sort_by_seq, files_above}
use iedb_agent.Wal.Contents.{IsSafe, new-IsSafe, apply_ops-IsSafe}
use iedb_agent.Wal.Manager.{
  WriteOutcome, Flushed, done, failed, flush, replay_contents, replay_bytes, replay_file,
  replay_files, replay, load_last_snapshot,
}
use iedb_agent.Node.{Node, apply_flushed, flush_tick, boot}

module _ (codec : Codec) where
  replay_contents-IsSafe :
      (seq : ℕ) (d : Decoded _) (buffer : Buffer)
      → IsSafe buffer
      → IsSafe (replay_contents codec seq d buffer)
  unfolding replay_contents
  replay_contents-IsSafe seq (ok contents) buffer h = apply_ops-IsSafe seq contents.ops buffer h
  replay_contents-IsSafe seq (err e) buffer h = h

  pub replay_bytes-IsSafe :
      (seq : ℕ) (bytes : Option Bytes) (buffer : Buffer)
      → IsSafe buffer
      → IsSafe (replay_bytes codec seq bytes buffer)
  unfolding replay_bytes
  replay_bytes-IsSafe seq none buffer h = h
  replay_bytes-IsSafe seq (some bytes) buffer h =
      replay_contents-IsSafe seq (deserialize_from_file codec bytes) buffer h

  pub replay_files-IsSafe :
      (files : List (ℕ × Option Bytes)) (buffer : Buffer)
      → IsSafe buffer
      → IsSafe (replay_files codec files buffer)
  unfolding replay_files replay_file
  replay_files-IsSafe [] buffer h = h
  replay_files-IsSafe ((seq, bytes) ∷ files) buffer h =
      replay_files-IsSafe files (replay_bytes codec seq bytes buffer)
        (replay_bytes-IsSafe seq bytes buffer h)

  pub apply_flushed-IsSafe :
      (f : Flushed) (buffer : Buffer) → IsSafe buffer → IsSafe (apply_flushed f buffer).buffer
  apply_flushed-IsSafe (done (seq, ops), wal, disk) buffer h = apply_ops-IsSafe seq ops buffer h
  apply_flushed-IsSafe (failed e, wal, disk) buffer h = h

  pub flush_tick-IsSafe :
      (now_ms : ℤ) (outcome : WriteOutcome) (node : Node)
      → IsSafe node.buffer
      → IsSafe (flush_tick codec now_ms outcome node).buffer
  unfolding flush_tick
  flush_tick-IsSafe now_ms outcome node h =
      apply_flushed-IsSafe (flush codec now_ms outcome node.wal node.disk) node.buffer h

  pub boot-IsSafe :
      (read_meta : Bytes → Option ℕ) (limit : ℕ) (disk : Disk)
      → IsSafe (boot codec read_meta limit disk).buffer
  unfolding boot replay
  boot-IsSafe read_meta limit disk =
      replay_files-IsSafe
        (sort_by_seq (files_above (load_last_snapshot read_meta disk) disk.wal_dir)) Buffer.new
        new-IsSafe
