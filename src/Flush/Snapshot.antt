-- ===== src/Flush/Snapshot.antt =====
-- flush/scheduler.rs: one snapshot cycle.
pub mod Sequence
pub mod Removed
pub mod Cycle
pub mod Safe
pub mod Selected
pub mod Numbered
pub mod Keeps
pub mod Early
pub mod Covered
pub mod Room
use iedb_agent.Base.{
  ℕ, suc, ◌+◌, ◌-◌, ◌≡◌, Bool, true, false, not, List, [], ◌∷◌, ◌++◌, map, Option, none, some,
  filter_by, find_by, any_of, is_empty, ltb, ◌==◌, if◌then◌else◌,
}
use iedb_agent.Base.Int.{ℤ, pos, ◌*ℤ◌, ◌-ℤ◌, ltb_ℤ, eqb_ℤ, div_i64, wrap_i64, u64_max}
use iedb_agent.Base.Text.{Str, Bytes, codes, str_eq}
use iedb_agent.Base.Dict.{Dict}
use iedb_agent.Config.{Config, S3Config}
use iedb_agent.Buffer.{Buffer, get_table, get_table_mut}
use iedb_agent.Buffer.Chunk.{Chunk}
use iedb_agent.Buffer.Table.{Table}
use iedb_agent.Wal.Files.{Disk, cleanup}
use iedb_agent.Wal.Manager.{WalManager, current_sequence}
use iedb_agent.Node.{Node}
use iedb_agent.Flush.Parquet.{Writer, ParquetError, ParquetResult, ok, err, flush_chunks_to_parquet}
use iedb_agent.Flush.Upload.Staging.{StagedFile, staging_save}
use iedb_agent.Flush.Upload.{Answer, UploadError, upload_parquet, upload_to_s3}

abbrev pub times : Option ℤ → ℤ → Option ℤ
times none b = none
times (some a) b = some (a *ℤ b)

-- `((now - interval) / interval) * interval`; `none` is a panic at an interval of zero.
unfoldable pub end_time_marker : ℤ → ℤ → Option ℤ
unfolding ◌*ℤ◌ ◌-ℤ◌ wrap_i64 div_i64
end_time_marker snapshot_interval_secs now_ns =
    let interval = wrap_i64 (snapshot_interval_secs *ℤ pos 1000000000) in
    times (div_i64 (wrap_i64 (now_ns -ℤ interval)) interval) interval

-- What is to be flushed of one table.
pub record Selection : Type 0 where
  pub db_name : Str
  pub table_name : Str
  pub chunk_times : List ℤ

unfoldable pub chunk_times_below : ℤ → List Chunk → List ℤ
chunk_times_below marker chunks =
    map (λ c. c.chunk_time) (filter_by (λ c. ltb_ℤ c.chunk_time marker) chunks)

unfoldable pub select_tables : ℤ → Str → Dict Table → List Selection
unfolding chunk_times_below
select_tables marker db [] = []
select_tables marker db ((name, t) ∷ ts) =
    let rest = select_tables marker db ts in
    let chunk_times = chunk_times_below marker t.chunks in
    if is_empty chunk_times
    then rest
    else record { db_name = db; table_name = name; chunk_times = chunk_times } ∷ rest

unfoldable pub chunks_to_flush : ℤ → Dict (Dict Table) → List Selection
unfolding select_tables
chunks_to_flush marker [] = []
chunks_to_flush marker ((db, ts) ∷ dbs) = select_tables marker db ts ++ chunks_to_flush marker dbs

abbrev pub put_chunk : Option Chunk → List Chunk → List Chunk
put_chunk none cs = cs
put_chunk (some c) cs = c ∷ cs

-- The chunks with the given times, cloned.
unfoldable pub cloned_chunks : List ℤ → Table → List Chunk
cloned_chunks [] table = []
cloned_chunks (t ∷ ts) table =
    put_chunk (find_by (λ c. eqb_ℤ c.chunk_time t) table.chunks) (cloned_chunks ts table)

abbrev pub has_time : List ℤ → ℤ → Bool
has_time chunk_times t = any_of (λ s. eqb_ℤ s t) chunk_times

-- `chunks.retain(|c| !chunk_times.contains(&c.chunk_time))`
unfoldable pub retain_others : List ℤ → Table → Table
retain_others chunk_times table = record table {
  chunks = filter_by (λ c. not (has_time chunk_times c.chunk_time)) table.chunks;
}

unfoldable pub min_of_chunks : ℕ → List Chunk → ℕ
min_of_chunks m [] = m
min_of_chunks m (c ∷ cs) = min_of_chunks (if ltb c.min_wal_seq m then c.min_wal_seq else m) cs

unfoldable pub min_of_tables : ℕ → Dict Table → ℕ
unfolding min_of_chunks
min_of_tables m [] = m
min_of_tables m ((_, t) ∷ ts) = min_of_tables (min_of_chunks m t.chunks) ts

unfoldable pub min_of_dbs : ℕ → Dict (Dict Table) → ℕ
unfolding min_of_tables
min_of_dbs m [] = m
min_of_dbs m ((_, ts) ∷ dbs) = min_of_dbs (min_of_tables m ts) dbs

-- The number up to which the WAL is no longer needed; `saturating_sub` is `-`.
unfoldable pub snapshot_wal_seq : Buffer → WalManager → ℕ
unfolding min_of_dbs current_sequence
snapshot_wal_seq buffer wal =
    let min_wal = min_of_dbs u64_max buffer.databases in
    if min_wal == u64_max then current_sequence wal - 1 else min_wal - 1

-- The node, the staging directory, and the files that have reached the server.
pub record Site : Type 0 where
  pub node : Node
  pub staging : List StagedFile
  pub uploaded : List (Selection × Bytes)

pub data SnapshotError : Type 0 where
  table_not_found : SnapshotError
  parquet_write : ParquetError → SnapshotError
  s3_config_missing : SnapshotError
  meta_failed : Str → SnapshotError
  staging_failed : Str → SnapshotError

pub data SnapshotResult (A : Type 0) : Type 0 where
  done : A → Site → SnapshotResult A
  failed : SnapshotError → Site → SnapshotResult A

-- What the surroundings do while one table is flushed: what the other tasks do to the node between
-- the cloning of the chunks and that of the table, and from there to the answer, the answer, and the errors of the file system, for the meta
-- file with what it then holds if it was touched.
pub record Trip : Type 0 where
  pub between : Node → Node
  pub meanwhile : Node → Node
  pub answer : Answer
  pub meta_error : Option (Str × Option (Option Bytes))
  pub staging_error : Option Str
  pub ts : Str

-- The metadata file after an error: as it was, or with other bytes or none.
abbrev pub meta_left : Option (Option Bytes) → Disk → Disk
meta_left none disk = disk
meta_left (some bytes) disk = record disk { last_snapshot = bytes }

module _ (w : Writer) (encode_meta : ℕ → Bytes) (config : Config) where
  -- The error of the upload, over the configured backend.
  unfoldable pub upload_error : Answer → Option UploadError
  unfolding upload_parquet upload_to_s3 str_eq
  upload_error answer =
      if str_eq config.backend (codes "s3") then upload_to_s3 answer else upload_parquet answer

  unfoldable pub lacks_s3 : Bool
  unfolding str_eq
  lacks_s3 =
      if str_eq config.backend (codes "s3")
      then elim config.s3 [ none ↦ true | some c ↦ false ]
      else false

  unfoldable pub with_meta : ℕ → Option (Str × Option (Option Bytes)) → Site → SnapshotResult ℕ
  unfolding cleanup
  with_meta seq (some (e, left)) site =
      failed (meta_failed e)
        (record site { node = record site.node { disk = meta_left left site.node.disk } })
  with_meta seq none site =
      let disk : Disk = record {
        wal_dir = cleanup seq site.node.disk.wal_dir;
        last_snapshot = some (encode_meta seq);
      } in
      done 1 (record site { node = record site.node { disk = disk } })

  -- After a successful upload: remove the chunks, compute the number, write it, and clean the WAL.
  unfoldable pub finish_upload :
      Selection → Option (Str × Option (Option Bytes)) → Site → SnapshotResult ℕ
  unfolding with_meta retain_others get_table_mut snapshot_wal_seq
  finish_upload sel meta_error site =
      let buffer =
        get_table_mut sel.db_name sel.table_name (retain_others sel.chunk_times) site.node.buffer in
      with_meta (snapshot_wal_seq buffer site.node.wal) meta_error
        (record site { node = record site.node { buffer = buffer } })

  unfoldable pub after_upload :
      Selection → Bytes → Trip → Option UploadError → Site → SnapshotResult ℕ
  unfolding finish_upload
  after_upload sel bytes trip none site =
      finish_upload sel trip.meta_error
        (record site { uploaded = site.uploaded ++ (sel, bytes) ∷ [] })
  after_upload sel bytes trip (some e) site = elim trip.staging_error [
    | some x ↦ failed (staging_failed x) site
    | none ↦ done 0 (record site {
      staging = staging_save config sel.db_name sel.table_name trip.ts bytes site.staging;
    })
  ]

  unfoldable pub send : Selection → Trip → ParquetResult Bytes → Site → SnapshotResult ℕ
  unfolding after_upload upload_error lacks_s3
  send sel trip (err e) site = failed (parquet_write e) site
  send sel trip (ok bytes) site =
      if lacks_s3
      then failed s3_config_missing site
      else after_upload sel bytes trip (upload_error trip.answer)
          (record site { node = trip.meanwhile site.node })

  -- With the chunks, the table that the second read of the buffer finds.
  unfoldable pub flush_found :
      Selection → Trip → List Chunk → Option Table → Site → SnapshotResult ℕ
  unfolding send flush_chunks_to_parquet
  flush_found sel trip chunks none site = failed table_not_found site
  flush_found sel trip chunks (some table) site =
      send sel trip (flush_chunks_to_parquet w table chunks) site

  -- With the table that the first read of the buffer finds.
  unfoldable pub flush_cloned : Selection → Trip → Option Table → Site → SnapshotResult ℕ
  unfolding flush_found cloned_chunks get_table
  flush_cloned sel trip none site = failed table_not_found site
  flush_cloned sel trip (some table) site =
      let second = trip.between site.node in
      flush_found sel trip (cloned_chunks sel.chunk_times table)
        (get_table sel.db_name sel.table_name second.buffer) (record site { node = second })

  -- One round of the loop over the tables, with 1 if its chunks were flushed.
  unfoldable pub flush_table : Selection → Trip → Site → SnapshotResult ℕ
  unfolding flush_cloned get_table
  flush_table sel trip site =
      flush_cloned sel trip (get_table sel.db_name sel.table_name site.node.buffer) site

  -- The loop; an error ends it. A round takes the next of the trips.
  unfoldable pub flush_tables : List Selection → List Trip → ℕ → Site → SnapshotResult ℕ
  unfolding flush_table
  flush_tables [] trips count site = done count site
  flush_tables (sel ∷ sels) [] count site = done count site
  flush_tables (sel ∷ sels) (trip ∷ trips) count site = elim (flush_table sel trip site) [
    | failed e site' ↦ failed e site'
    | done n site' ↦ flush_tables sels trips (count + n) site'
  ]

unfoldable pub run_selected :
    Writer → (ℕ → Bytes) → Config → List Trip → Option ℤ → Site → Option (SnapshotResult ℕ)
unfolding flush_tables chunks_to_flush
run_selected w encode_meta config trips none site = none
run_selected w encode_meta config trips (some marker) site = some (
    flush_tables w encode_meta config (chunks_to_flush marker site.node.buffer.databases) trips 0
      site)

-- `do_snapshot`; `none` is a panic.
unfoldable pub do_snapshot :
    Writer → (ℕ → Bytes) → Config → ℤ → ℤ → List Trip → Site → Option (SnapshotResult ℕ)
unfolding run_selected end_time_marker
do_snapshot w encode_meta config snapshot_interval_secs now_ns trips site =
    run_selected w encode_meta config trips (end_time_marker snapshot_interval_secs now_ns) site
