-- ===== src/Flush/Snapshot/Keeps.antt =====
-- flush/scheduler.rs: how the rounds of a snapshot change the node, one after the other.
use iedb_agent.Base.{
  ℕ, ◌+◌, List, [], ◌∷◌, ◌++◌, Option, none, some, Bool-cases, Option-cases, inl, inr,
}
use iedb_agent.Base.Int.{ℤ}
use iedb_agent.Base.Text.{Bytes}
use iedb_agent.Config.{Config}
use iedb_agent.Buffer.{get_table}
use iedb_agent.Buffer.Chunk.{Chunk}
use iedb_agent.Buffer.Table.{Table}
use iedb_agent.Node.{Node}
use iedb_agent.Flush.Parquet.{Writer, ParquetResult, ok, err, flush_chunks_to_parquet}
use iedb_agent.Flush.Upload.{UploadError}
use iedb_agent.Flush.Snapshot.{
  Selection, Site, SnapshotResult, done, failed, Trip, cloned_chunks, upload_error, lacks_s3,
  finish_upload, after_upload, send, flush_found, flush_cloned, flush_table, flush_tables,
  chunks_to_flush, end_time_marker, run_selected, do_snapshot,
}
use iedb_agent.Flush.Snapshot.Cycle.{the_site}

-- What holds of the node after a snapshot that did not panic.
abbrev pub AtEnd {κ} : (Node → Type κ) → Option (SnapshotResult ℕ) → Type κ
AtEnd P none = Unit
AtEnd P (some r) = P (the_site r).node

pub AtEnd-map {κ μ} :
    (P : Node → Type κ) (Q : Node → Type μ) (r : Option (SnapshotResult ℕ))
    → ((node : Node) → P node → Q node)
    → AtEnd P r
    → AtEnd Q r
AtEnd-map P Q none f p = tt
AtEnd-map P Q (some r) f p = f (the_site r).node p

module _ (w : Writer) (encode_meta : ℕ → Bytes) (config : Config) where
  module _ {κ} (P : Node → Type κ) (sel : Selection) (trip : Trip) (site : Site)
      (before : P site.node) (during : P (trip.meanwhile site.node))
      (after : (uploaded : List (Selection × Bytes))
        → P
            (the_site (
              finish_upload w encode_meta config sel trip.meta_error
                (record site { node = trip.meanwhile site.node; uploaded = uploaded }))).node) where
    staged-keeps :
        (bytes : Bytes) (e : UploadError) (trip' : Trip) (site' : Site)
        → P site'.node
        → P (the_site (after_upload w encode_meta config sel bytes trip' (some e) site')).node
    unfolding after_upload
    staged-keeps bytes e trip' site' p = elim (Option-cases trip'.staging_error) [
      | inl kept ↦ rw kept p
      | inr (x, e') ↦ rw e' p
    ]

    after_upload-keeps :
        (bytes : Bytes) (o : Option UploadError)
        → P
            (the_site (
              after_upload w encode_meta config sel bytes trip o
                (record site { node = trip.meanwhile site.node }))).node
    unfolding after_upload
    after_upload-keeps bytes none = after (site.uploaded ++ (sel, bytes) ∷ [])
    after_upload-keeps bytes (some e) =
        staged-keeps bytes e trip (record site { node = trip.meanwhile site.node }) during

    send-keeps :
        (r : ParquetResult Bytes) → P (the_site (send w encode_meta config sel trip r site)).node
    unfolding send
    send-keeps (err e) = before
    send-keeps (ok bytes) = elim (Bool-cases (lacks_s3 w encode_meta config)) [
      | inl lacks ↦ rw lacks before
      | inr has ↦ rw has (after_upload-keeps bytes (upload_error w encode_meta config trip.answer))
    ]

    flush_found-keeps :
        (chunks : List Chunk) (o : Option Table)
        → P (the_site (flush_found w encode_meta config sel trip chunks o site)).node
    unfolding flush_found
    flush_found-keeps chunks none = before
    flush_found-keeps chunks (some table) = send-keeps (flush_chunks_to_parquet w table chunks)

  module _ {κ} (P : Node → Type κ) (sel : Selection) (trip : Trip) (site : Site)
      (before : P site.node) (second : P (trip.between site.node))
      (during : P (trip.meanwhile (trip.between site.node)))
      (after : (uploaded : List (Selection × Bytes))
        → P
            (the_site (
              finish_upload w encode_meta config sel trip.meta_error (record site {
                node = trip.meanwhile (trip.between site.node);
                uploaded = uploaded;
              }))).node) where
    flush_cloned-keeps :
        (o : Option Table) → P (the_site (flush_cloned w encode_meta config sel trip o site)).node
    unfolding flush_cloned
    flush_cloned-keeps none = before
    flush_cloned-keeps (some table) =
        flush_found-keeps P sel trip (record site { node = trip.between site.node }) second during
          after (cloned_chunks sel.chunk_times table)
          (get_table sel.db_name sel.table_name (trip.between site.node).buffer)

    -- What holds of the node before a round, at the second read of the buffer, when the answer is
    -- there, and after a successful upload is followed through, holds after the round, however it
    -- ends.
    pub flush_table-keeps : P (the_site (flush_table w encode_meta config sel trip site)).node
    unfolding flush_table
    flush_table-keeps = flush_cloned-keeps (get_table sel.db_name sel.table_name site.node.buffer)

  module _ {κ} (P : List Trip → Node → Type κ)
      (weaken : (trips : List Trip) (node : Node) → P trips node → P [] node)
      (round : (sel : Selection) (trip : Trip) (trips : List Trip) (site : Site)
        → P (trip ∷ trips) site.node
        → P trips (the_site (flush_table w encode_meta config sel trip site)).node) where
    after_round :
        (trips : List Trip) (next : ℕ → Site → SnapshotResult ℕ) (r : SnapshotResult ℕ)
        → P trips (the_site r).node
        → ((n : ℕ) (site : Site) → P trips site.node → P [] (the_site (next n site)).node)
        → P []
            (the_site (elim r [ failed e site ↦ failed e site | done n site ↦ next n site ])).node
    after_round trips next (failed e site) p rest = weaken trips site.node p
    after_round trips next (done n site) p rest = rest n site p

    flush_tables-keeps :
        (sels : List Selection) (trips : List Trip) (count : ℕ) (site : Site)
        → P trips site.node
        → P [] (the_site (flush_tables w encode_meta config sels trips count site)).node
    unfolding flush_tables
    flush_tables-keeps [] trips count site p = weaken trips site.node p
    flush_tables-keeps (sel ∷ sels) [] count site p = p
    flush_tables-keeps (sel ∷ sels) (trip ∷ trips) count site p =
        after_round trips
          (λ n site'. flush_tables w encode_meta config sels trips (count + n) site')
          (flush_table w encode_meta config sel trip site) (round sel trip trips site p)
          (λ n site' q. flush_tables-keeps sels trips (count + n) site' q)

    -- What each round keeps, a snapshot keeps, whether it succeeds, fails or stages files at any of
    -- its tables.
    pub do_snapshot-keeps :
        (snapshot_interval_secs now_ns : ℤ) (trips : List Trip) (site : Site)
        → P trips site.node
        → AtEnd (P []) (do_snapshot w encode_meta config snapshot_interval_secs now_ns trips site)
    unfolding do_snapshot run_selected
    do_snapshot-keeps secs now_ns trips site p = elim (Option-cases (end_time_marker secs now_ns)) [
      | inl panics ↦ rw panics tt
      | inr (marker, e) ↦
          rw e
            (flush_tables-keeps (chunks_to_flush marker site.node.buffer.databases) trips 0 site p)
    ]
