-- ===== src/Flush/Snapshot/Early.antt =====
-- flush/scheduler.rs and http/write.rs: a snapshot that comes between the WAL flush of a write and its
-- application, between which the write handler has neither mutex.
use iedb_agent.Base.{
  ℕ, ◌+◌, ◌-◌, ◌%◌, ◌^◌, ◌<◌, ◌≡◌, refl, List, [], ◌++◌, Option, none, some, arith,
}
use iedb_agent.Base.Int.{ℤ, u64_max}
use iedb_agent.Base.Text.{Str, Bytes}
use iedb_agent.Config.{Config}
use iedb_agent.Buffer
use iedb_agent.Buffer.{get_table_mut}
use iedb_agent.Wal.{WalOp}
use iedb_agent.Wal.Apply.{apply_ops}
use iedb_agent.Wal.Serialize.{Codec}
use iedb_agent.Base.Dict.{lookup}
use iedb_agent.Wal.Files.{
  wal_file_path, file_seq-wal_file_path, AllBelow, files_above-cleanup, lookup-cleanup, sort_by_seq,
}
use iedb_agent.Wal.Files.Sorted.{files_above_none}
use iedb_agent.Wal.Contents.{IsSafe, rows_in, logged, rows_in-apply_ops}
use iedb_agent.Wal.Manager.{
  written, flush_ops, replay, replay_files, load_last_snapshot, current_sequence,
}
use iedb_agent.Node.{Node}
use iedb_agent.Node.Recovered.{AllBelow-insert}
use iedb_agent.Flush.Parquet.{Writer}
use iedb_agent.Flush.Snapshot.{
  Selection, Site, retain_others, min_of_dbs, snapshot_wal_seq, with_meta, finish_upload,
}
use iedb_agent.Flush.Snapshot.Cycle.{the_site}
use iedb_agent.Flush.Snapshot.Safe.{get_table_mut-IsSafe}

module _ (codec : Codec) (read_meta : Bytes → Option ℕ) (encode_meta : ℕ → Bytes) (w : Writer)
    (config : Config) (sel : Selection) (now_ms : ℤ) (ops : List WalOp) (node : Node) where
  -- The WAL file of the operations is written, and they are not yet in the buffer.
  abbrev pub flushed_site : Site
  flushed_site =
      let (r, wal, disk) = flush_ops codec now_ms written ops node.wal node.disk in
      record {
        node = record { buffer = node.buffer; wal = wal; disk = disk };
        staging = [];
        uploaded = [];
      }

  abbrev pub early_node : Node
  early_node = (the_site (finish_upload w encode_meta config sel none flushed_site)).node

  -- If the numbers of the metadata are read back as they were written, the tables in memory are safe,
  -- the disk has no file from the number of the next WAL file on, which is below the last `u64`, and a
  -- snapshot leaves no chunk in memory, then the number that it writes is that of the
  -- file just written, the file is deleted, and a replay finds nothing, while the operations then go
  -- into memory.
  pub finish_upload-early :
      (db name : Str) (t : ℤ)
      → ((n : ℕ) → read_meta (encode_meta n) ≡ some n)
      → IsSafe node.buffer
      → AllBelow node.wal.current_seq node.disk.wal_dir
      → node.wal.current_seq + 1 < 2 ^ 64
      → min_of_dbs u64_max
          (get_table_mut sel.db_name sel.table_name
            (retain_others sel.chunk_times)
            node.buffer).databases
        ≡ u64_max
      → (load_last_snapshot read_meta early_node.disk ≡ node.wal.current_seq)
        × (lookup (wal_file_path node.wal.current_seq) early_node.disk.wal_dir ≡ none)
        × (replay codec read_meta early_node.disk Buffer.new ≡ Buffer.new)
        × (rows_in db name t (apply_ops node.wal.current_seq ops early_node.buffer)
            ≡ rows_in db name t early_node.buffer ++ logged db name t ops)
  unfolding finish_upload with_meta snapshot_wal_seq current_sequence flush_ops replay
      load_last_snapshot replay_files sort_by_seq
  finish_upload-early db name t reads safe below room empty =
      let seq = node.wal.current_seq in
      let next : (seq + 1) % 2 ^ 64 ≡ seq + 1 = omega arith in
      let number : seq + 1 - 1 ≡ seq = omega arith in
      (
        rw (empty, next, number, reads seq) refl,
        rw (empty, next, number)
            (lookup-cleanup seq (wal_file_path seq) seq _ (file_seq-wal_file_path seq (omega arith))
              (omega arith)),
        rw
            (
              empty,
              next,
              number,
              reads seq,
              files_above-cleanup seq seq _ (omega arith),
              files_above_none (seq + 1) seq _
                  (AllBelow-insert seq _ node.disk.wal_dir (omega arith) below) (omega arith),
            )
            refl,
        rows_in-apply_ops db name t seq ops _
            (get_table_mut-IsSafe sel.db_name sel.table_name sel.chunk_times node.buffer safe),
      )
