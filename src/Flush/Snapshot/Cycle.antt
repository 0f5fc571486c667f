-- ===== src/Flush/Snapshot/Cycle.antt =====
-- flush/scheduler.rs: what one round of a snapshot does to the rows in memory.
use iedb_agent.Base.{
  ℕ, ◌≡◌, ◌≤◌, ◌<◌, refl, sym, subst, List, [], ◌∷◌, ◌++◌, Option, none, some, arith, Bool-cases,
  inl, inr,
}
use iedb_agent.Base.Text.{Str, Bytes}
use iedb_agent.Config.{Config}
use iedb_agent.Buffer.{get_table, get_table_mut}
use iedb_agent.Buffer.Chunk.{Chunk}
use iedb_agent.Buffer.Table.{Table}
use iedb_agent.Flush.Parquet.{Writer, ParquetResult, ok, err, flush_chunks_to_parquet}
use iedb_agent.Flush.Upload.{Answer, no_answer, answered, UploadError, upload_parquet, upload_to_s3}
use iedb_agent.Flush.Snapshot.{
  Selection, Site, SnapshotResult, done, failed, Trip, cloned_chunks, retain_others, upload_error,
  lacks_s3, with_meta, finish_upload, after_upload, send, flush_found, flush_cloned, flush_table,
}
use iedb_agent.Flush.Snapshot.Removed.{
  IsPicked, IsRemoved, cloned_chunks-IsPicked, get_table_mut-IsRemoved,
}

abbrev pub the_site : {A : Type 0} → SnapshotResult A → Site
the_site (done a site) = site
the_site (failed e site) = site

module _ (w : Writer) (encode_meta : ℕ → Bytes) (config : Config) (sel : Selection)
    (trip : Trip) where
  -- What became of the rows of the selection: they are all in memory still, as the other tasks left
  -- them, and nothing was uploaded; or a file with the rows of the chunks at the first read and the
  -- table at the second was answered with a success, and chunks of the selection, and no others, are
  -- gone from what the other tasks left.
  pub data Accounted (before : Site) (after : Site) : Type 0 where
    untouched : after.node ≡ before.node → after.uploaded ≡ before.uploaded → Accounted before after
    unsent :
        after.node ≡ trip.between before.node
        → after.uploaded ≡ before.uploaded
        → Accounted before after
    held :
        after.node ≡ trip.meanwhile (trip.between before.node)
        → after.uploaded ≡ before.uploaded
        → Accounted before after
    accepted :
        (first second : Table) (chunks : List Chunk) (bytes : Bytes) (status : ℕ) (body : Str)
        → get_table sel.db_name sel.table_name before.node.buffer ≡ some first
        → IsPicked first.chunks sel.chunk_times chunks
        → get_table sel.db_name sel.table_name (trip.between before.node).buffer ≡ some second
        → flush_chunks_to_parquet w second chunks ≡ ok bytes
        → trip.answer ≡ answered status body
        → 200 ≤ status
        → status < 300
        → after.uploaded ≡ before.uploaded ++ (sel, bytes) ∷ []
        → IsRemoved sel (trip.meanwhile (trip.between before.node)).buffer after.node.buffer
        → Accounted before after

  answer_of :
      (a : Answer)
      → trip.answer ≡ a
      → upload_error w encode_meta config a ≡ none
      → (status : ℕ) × (body : Str) × (trip.answer ≡ answered status body)
        × (200 ≤ status)
        × (status < 300)
  unfolding upload_error upload_parquet upload_to_s3
  answer_of (no_answer e) same up = absurd (ground (arith, up))
  answer_of (answered status body) same up =
      (status, body, same, ground (arith, up), ground (arith, up))

  accepted_answer :
      upload_error w encode_meta config trip.answer ≡ none
      → (status : ℕ) × (body : Str) × (trip.answer ≡ answered status body)
        × (200 ≤ status)
        × (status < 300)
  accepted_answer up = answer_of trip.answer refl up

  pub finish_upload_lem :
      (meta_error : Option (Str × Option (Option Bytes))) (site : Site)
      → let after = the_site (finish_upload w encode_meta config sel meta_error site) in
        (after.uploaded ≡ site.uploaded)
        × (after.node.buffer
            ≡ get_table_mut sel.db_name sel.table_name
                (retain_others sel.chunk_times)
                site.node.buffer)
  unfolding finish_upload with_meta
  finish_upload_lem none site = (refl, refl)
  finish_upload_lem (some e) site = (refl, refl)

  held_lem :
      (bytes : Bytes) (e : UploadError) (staging_error : Option Str) (site : Site)
      → let after = the_site (
          after_upload w encode_meta config sel bytes
            (record trip { staging_error = staging_error })
            (some e)
            site) in
        (after.node ≡ site.node) × (after.uploaded ≡ site.uploaded)
  unfolding after_upload
  held_lem bytes e none site = (refl, refl)
  held_lem bytes e (some x) site = (refl, refl)

  -- The rounds whose two reads of the buffer find the table.
  module _ (first second : Table) (site : Site)
      (found : get_table sel.db_name sel.table_name site.node.buffer ≡ some first)
      (again : get_table sel.db_name sel.table_name (trip.between site.node).buffer
        ≡ some second) where
    abbrev at_second : Site
    at_second = record site { node = trip.between site.node }

    abbrev at_answer : Site
    at_answer = record site { node = trip.meanwhile (trip.between site.node) }

    after_upload-Accounted :
        (bytes : Bytes) (o : Option UploadError)
        → flush_chunks_to_parquet w second (cloned_chunks sel.chunk_times first) ≡ ok bytes
        → upload_error w encode_meta config trip.answer ≡ o
        → Accounted site (the_site (after_upload w encode_meta config sel bytes trip o at_answer))
    unfolding after_upload
    after_upload-Accounted bytes none encoded up =
        let site' = record at_answer { uploaded = site.uploaded ++ (sel, bytes) ∷ [] } in
        let (same, gone) = finish_upload_lem trip.meta_error site' in
        let (status, body, answer, low, high) = accepted_answer up in
        accepted first second (cloned_chunks sel.chunk_times first) bytes status body found
          (cloned_chunks-IsPicked sel.chunk_times first) again encoded answer low high same
          (subst (IsRemoved sel at_answer.node.buffer) (sym gone)
            (get_table_mut-IsRemoved sel at_answer.node.buffer))
    after_upload-Accounted bytes (some e) encoded up =
        let (node, uploaded) = held_lem bytes e trip.staging_error at_answer in held node uploaded

    send-Accounted :
        (r : ParquetResult Bytes)
        → flush_chunks_to_parquet w second (cloned_chunks sel.chunk_times first) ≡ r
        → Accounted site (the_site (send w encode_meta config sel trip r at_second))
    unfolding send
    send-Accounted (err e) encoded = unsent refl refl
    send-Accounted (ok bytes) encoded = elim (Bool-cases (lacks_s3 w encode_meta config)) [
      | inl lacks ↦ rw lacks (unsent refl refl)
      | inr has ↦ rw has (
          after_upload-Accounted bytes (upload_error w encode_meta config trip.answer) encoded refl)
    ]

  flush_cloned-Accounted :
      (o again : Option Table) (site : Site)
      → get_table sel.db_name sel.table_name site.node.buffer ≡ o
      → get_table sel.db_name sel.table_name (trip.between site.node).buffer ≡ again
      → Accounted site (the_site (flush_cloned w encode_meta config sel trip o site))
  unfolding flush_cloned flush_found
  flush_cloned-Accounted none again site found e = untouched refl refl
  flush_cloned-Accounted (some first) none site found e = rw e (unsent refl refl)
  flush_cloned-Accounted (some first) (some second) site found e = rw e (
      send-Accounted first second site found e
        (flush_chunks_to_parquet w second (cloned_chunks sel.chunk_times first)) refl)

  -- However a round ends, the rows of its selection are accounted for: the node is as it was or as
  -- the other tasks left it, and nothing was uploaded; or a file made of the selected chunks, as they
  -- were at the first read of the buffer, was answered with a status from 200 to 299, and of what the
  -- other tasks left, the chunks of the table with selected times are gone and all others are there.
  pub flush_table-Accounted :
      (site : Site) → Accounted site (the_site (flush_table w encode_meta config sel trip site))
  unfolding flush_table
  flush_table-Accounted site =
      flush_cloned-Accounted (get_table sel.db_name sel.table_name site.node.buffer)
        (get_table sel.db_name sel.table_name (trip.between site.node).buffer) site refl refl
