-- ===== src/Tests/Flush.antt =====
-- Snapshots at concrete inputs.
use iedb_agent.Base.{◌<◌, ◌≡◌, refl, [], ◌∷◌, ◌++◌, none, arith}
use iedb_agent.Base.Int.{pos, u64_max}
use iedb_agent.Base.Text.{codes, str_eq}
use iedb_agent.Buffer
use iedb_agent.Buffer.{get_table_mut}
use iedb_agent.Buffer.Chunk.{Chunk}
use iedb_agent.Buffer.Everywhere.{Everywhere}
use iedb_agent.Wal.Files.{files_above, sort_by_seq}
use iedb_agent.Wal.Manager.{replay, replay_files}
use iedb_agent.Flush.Parquet.{Writer, ok}
use iedb_agent.Flush.Upload.{answered}
use iedb_agent.Flush.Snapshot.{
  Selection, Site, done, Trip, retain_others, min_of_dbs, snapshot_wal_seq, finish_upload,
  flush_table,
}
use iedb_agent.Flush.Snapshot.Sequence.{IsNumbered, snapshot_wal_seq_below, replay-finish_upload}
use iedb_agent.Flush.Snapshot.Cycle.{Accounted, the_site, flush_table-Accounted}
use iedb_agent.Base.{some, true, All}
use iedb_agent.Config.{snapshot_interval_secs, parse_duration, trim, parse_i64}
use iedb_agent.Wal.{write}
use iedb_agent.Base.Dict.{lookup}
use iedb_agent.Wal.Files.{wal_file_path}
use iedb_agent.Wal.Manager.{load_last_snapshot}
use iedb_agent.Wal.Apply.{apply_ops}
use iedb_agent.Wal.Contents.{IsSafe, rows_in, logged, new-IsSafe, apply_ops-IsSafe}
use iedb_agent.Flush.Parquet.{schema_error}
use iedb_agent.Flush.Snapshot.{
  failed, parquet_write, run_selected, end_time_marker, do_snapshot, chunks_to_flush,
}
use iedb_agent.Flush.Snapshot.Numbered.{apply_ops-IsNumbered}
use iedb_agent.Flush.Snapshot.Early.{early_node, finish_upload-early}
use iedb_agent.Flush.Snapshot.Keeps.{AtEnd}
use iedb_agent.Flush.Snapshot.Safe.{do_snapshot-IsSafe}
use iedb_agent.Flush.Snapshot.Selected.{IsOld, chunks_to_flush-IsOld}
use iedb_agent.Flush.Scheduler.{
  Scheduler, should_timed, should_snapshot, run_round, run_round_retries,
}
use iedb_agent.Node.{Node}
use iedb_agent.Tests.Codec.{test_codec}
use iedb_agent.Tests.Data.{writer, batch, full_buffer, full_node, encode_meta, read_meta, config}

abbrev selection : Selection
selection = record {
  db_name = codes "plant";
  table_name = codes "temp";
  chunk_times = pos 1000000000 ∷ [];
}

abbrev site : Site
site = record { node = full_node; staging = []; uploaded = [] }

-- A round in which nothing else happens and the server accepts the file.
abbrev trip : Trip
trip = record {
  between = λ node. node;
  meanwhile = λ node. node;
  answer = answered 200 [];
  meta_error = none;
  staging_error = none;
  ts = codes "20240101_000000";
}

flush_table-Accounted_example :
    Accounted writer encode_meta config selection trip site
      (the_site (flush_table writer encode_meta config selection trip site))
flush_table-Accounted_example = flush_table-Accounted writer encode_meta config selection trip site

snapshot_wal_seq_below_example :
    Everywhere
      (λ (c : Chunk). snapshot_wal_seq full_buffer full_node.wal < c.min_wal_seq)
      full_buffer.databases
snapshot_wal_seq_below_example =
    snapshot_wal_seq_below full_buffer full_node.wal (((((omega arith, omega arith), tt), tt), tt))

replay-finish_upload_example :
    let kept =
      get_table_mut
        (codes "plant")
        (codes "temp")
        (retain_others (pos 1000000000 ∷ []))
        full_buffer in
    let seq = snapshot_wal_seq kept full_node.wal in
    (after : Site) × (finish_upload writer encode_meta config selection none site ≡ done 1 after)
    × (after.node.buffer ≡ kept)
    × (replay test_codec read_meta after.node.disk Buffer.new
        ≡ replay_files test_codec (sort_by_seq (files_above seq full_node.disk.wal_dir)) Buffer.new)
replay-finish_upload_example =
    replay-finish_upload test_codec read_meta writer encode_meta config selection site Buffer.new
      (λ n. refl)

-- A buffer with the rows of one batch, and its site.
abbrev one_batch : Site
one_batch = record {
  node = record full_node { buffer = apply_ops 1 (write batch ∷ []) Buffer.new };
  staging = [];
  uploaded = [];
}

one_batch-IsSafe : IsSafe one_batch.node.buffer
one_batch-IsSafe = apply_ops-IsSafe 1 (write batch ∷ []) Buffer.new new-IsSafe

do_snapshot-IsSafe_example :
    AtEnd
      (λ (node : Node). IsSafe node.buffer)
      (do_snapshot writer encode_meta config (pos 1) (pos 5000000000) (trip ∷ []) one_batch)
do_snapshot-IsSafe_example =
    do_snapshot-IsSafe writer encode_meta config (pos 1) (pos 5000000000) (trip ∷ []) one_batch
      (((λ node safe. safe), (λ node safe. safe)), tt) one_batch-IsSafe

chunks_to_flush-IsOld_example :
    All (IsOld (pos 4000000000)) (chunks_to_flush (pos 4000000000) full_buffer.databases)
chunks_to_flush-IsOld_example = chunks_to_flush-IsOld (pos 4000000000) full_buffer.databases

-- A writer that takes no schema.
abbrev failing_writer : Writer
failing_writer = record {
  parse_message_type = λ message. some [];
  write = λ message columns. ok [];
}

one_second : snapshot_interval_secs config ≡ pos 1
unfolding snapshot_interval_secs parse_duration trim parse_i64
one_second = refl

timed_due : should_timed config 0 1000000000 ≡ true
unfolding should_timed
timed_due = refl

snapshot_fails :
    do_snapshot failing_writer encode_meta config
      (snapshot_interval_secs config)
      (pos 5000000000)
      (trip ∷ [])
      site
    ≡ some (failed (parquet_write (schema_error [])) site)
unfolding do_snapshot run_selected end_time_marker
snapshot_fails = rw one_second refl

run_round_retries_example :
    (after : Scheduler) × (run_round failing_writer encode_meta config 4294967296 1000000000
        (pos 5000000000)
        (trip ∷ [])
        (record { site = site; last_snapshot = 0 })
      ≡ some after)
    × (after.site ≡ site)
    × (should_snapshot 4294967296 config 6000000000 after ≡ true)
run_round_retries_example =
    run_round_retries failing_writer encode_meta config 4294967296 1000000000 6000000000
      (pos 5000000000) (trip ∷ []) (record { site = site; last_snapshot = 0 })
      (parquet_write (schema_error [])) site timed_due snapshot_fails (omega arith)

apply_ops-IsNumbered_example :
    Everywhere IsNumbered (apply_ops 1 (write batch ∷ []) Buffer.new).databases
apply_ops-IsNumbered_example =
    apply_ops-IsNumbered 1 (omega arith) (omega arith) (write batch ∷ []) Buffer.new ((λ e. cc), tt)
      tt

-- After the removal of its only chunk the buffer of the test has none.
emptied :
    min_of_dbs u64_max
      (get_table_mut
        (codes "plant")
        (codes "temp")
        (retain_others selection.chunk_times)
        one_batch.node.buffer).databases
    ≡ u64_max
unfolding min_of_dbs get_table_mut retain_others apply_ops str_eq
emptied = refl

finish_upload-early_example :
    (load_last_snapshot read_meta
        (early_node test_codec read_meta encode_meta writer config selection
          (pos 1900)
          (write batch ∷ [])
          one_batch.node).disk
      ≡ one_batch.node.wal.current_seq)
    × (lookup
          (wal_file_path one_batch.node.wal.current_seq)
          (early_node test_codec read_meta encode_meta writer config selection
            (pos 1900)
            (write batch ∷ [])
            one_batch.node).disk.wal_dir
        ≡ none)
    × (replay test_codec read_meta
          (early_node test_codec read_meta encode_meta writer config selection
            (pos 1900)
            (write batch ∷ [])
            one_batch.node).disk
          Buffer.new
        ≡ Buffer.new)
    × (rows_in (codes "plant") (codes "temp") (pos 1000000000) (
          apply_ops one_batch.node.wal.current_seq
            (write batch ∷ [])
            (early_node test_codec read_meta encode_meta writer config selection
              (pos 1900)
              (write batch ∷ [])
              one_batch.node).buffer)
        ≡ rows_in
            (codes "plant")
            (codes "temp")
            (pos 1000000000)
            (early_node test_codec read_meta encode_meta writer config selection
              (pos 1900)
              (write batch ∷ [])
              one_batch.node).buffer
          ++ logged (codes "plant") (codes "temp") (pos 1000000000) (write batch ∷ []))
finish_upload-early_example =
    finish_upload-early test_codec read_meta encode_meta writer config selection (pos 1900)
      (write batch ∷ []) one_batch.node (codes "plant") (codes "temp") (pos 1000000000) (λ n. refl)
      one_batch-IsSafe tt (omega arith) emptied
