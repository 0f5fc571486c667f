-- ===== src/Flush/Snapshot/Safe.antt =====
-- flush/scheduler.rs: snapshots and the invariant that queries rest on.
use iedb_agent.Base.{
  ℕ, sym, subst, Bool, not, List, [], ◌∷◌, Option, none, some, filter_by, All, Bool-cases, inl, inr,
}
use iedb_agent.Base.Int.{ℤ}
use iedb_agent.Base.Text.{Str, Bytes, str_eq}
use iedb_agent.Config.{Config}
use iedb_agent.Buffer.{Buffer, get_table, get_table_mut, changed, get_table-get_table_mut}
use iedb_agent.Buffer.Chunk.{Chunk}
use iedb_agent.Buffer.Chunk.Bounds.{IsBounded}
use iedb_agent.Buffer.Table.{Table}
use iedb_agent.Buffer.Table.Order.{IsSorted}
use iedb_agent.Buffer.Tags.{IsWithin}
use iedb_agent.Wal.Valid.{IsSafeTable}
use iedb_agent.Wal.Contents.{IsSafe, SafeAt, at_some, safe_at}
use iedb_agent.Node.{Node}
use iedb_agent.Flush.Parquet.{Writer}
use iedb_agent.Flush.Snapshot.{
  Selection, Site, Trip, retain_others, has_time, flush_table, do_snapshot,
}
use iedb_agent.Flush.Snapshot.Keeps.{AtEnd, AtEnd-map, flush_table-keeps, do_snapshot-keeps}
use iedb_agent.Flush.Snapshot.Cycle.{the_site, finish_upload_lem}

pub All-filter {κ} :
    (P : Chunk → Type κ) (p : Chunk → Bool) (cs : List Chunk) → All P cs → All P (filter_by p cs)
All-filter P p [] h = tt
All-filter P p (c ∷ cs) h = elim (Bool-cases (p c)) [
  | inl stays ↦ rw stays (h.0, All-filter P p cs h.1)
  | inr goes ↦ rw goes (All-filter P p cs h.1)
]

filter-IsSorted : (p : Chunk → Bool) (cs : List Chunk) → IsSorted cs → IsSorted (filter_by p cs)
filter-IsSorted p [] h = tt
filter-IsSorted p (c ∷ cs) h = elim (Bool-cases (p c)) [
  | inl stays ↦ rw stays (All-filter _ p cs h.0, filter-IsSorted p cs h.1)
  | inr goes ↦ rw goes (filter-IsSorted p cs h.1)
]

retain_others-IsSafeTable :
    (chunk_times : List ℤ) (t : Table) → IsSafeTable t → IsSafeTable (retain_others chunk_times t)
unfolding retain_others
retain_others-IsSafeTable chunk_times t h =
    let p = λ (c : Chunk). not (has_time chunk_times c.chunk_time) in
    record {
      sorted = filter-IsSorted p t.chunks h.sorted;
      within = All-filter (λ (c : Chunk). IsWithin c.rows c.tag_index) p t.chunks h.within;
      bounded = All-filter IsBounded p t.chunks h.bounded;
    }

changed-SafeAt :
    (chunk_times : List ℤ) (o : Option Table)
    → SafeAt o
    → SafeAt (changed (retain_others chunk_times) o)
changed-SafeAt chunk_times none h = tt
changed-SafeAt chunk_times (some t) h = retain_others-IsSafeTable chunk_times t h

pub get_table_mut-IsSafe :
    (db name : Str) (chunk_times : List ℤ) (buffer : Buffer)
    → IsSafe buffer
    → IsSafe (get_table_mut db name (retain_others chunk_times) buffer)
get_table_mut-IsSafe db name chunk_times buffer h =
    let at : (d j : Str)
        → SafeAt (get_table d j (get_table_mut db name (retain_others chunk_times) buffer)) =
      λ d j.
        rw (get_table-get_table_mut db name d j (retain_others chunk_times) buffer)
          (elim (Bool-cases (str_eq db d)) [
            | inl same ↦ rw same (elim (Bool-cases (str_eq name j)) [
              | inl also ↦
                  rw also (changed-SafeAt chunk_times (get_table d j buffer) (safe_at buffer d j h))
              | inr ne ↦ rw ne (safe_at buffer d j h)
            ])
            | inr ne ↦ rw ne (safe_at buffer d j h)
          ]) in
    record { tables = λ d j t e. at_some (get_table d j _) t (at d j) e }

-- What the other tasks do keeps the tables safe.
abbrev pub KeepsSafe : Trip → Type 0
KeepsSafe trip =
    ((node : Node) → IsSafe node.buffer → IsSafe (trip.between node).buffer)
    × ((node : Node) → IsSafe node.buffer → IsSafe (trip.meanwhile node).buffer)

module _ (w : Writer) (encode_meta : ℕ → Bytes) (config : Config) where
  flush_table-IsSafe :
      (sel : Selection) (trip : Trip) (site : Site)
      → KeepsSafe trip
      → IsSafe site.node.buffer
      → IsSafe (the_site (flush_table w encode_meta config sel trip site)).node.buffer
  flush_table-IsSafe sel trip site keeps h =
      let second = keeps.0 site.node h in
      let during = keeps.1 (trip.between site.node) second in
      flush_table-keeps w encode_meta config (λ (node : Node). IsSafe node.buffer) sel trip site h
        second during
        (λ uploaded.
          subst IsSafe
            (sym
              (finish_upload_lem w encode_meta config sel trip trip.meta_error (record site {
                node = trip.meanwhile (trip.between site.node);
                uploaded = uploaded;
              })).1)
            (get_table_mut-IsSafe sel.db_name sel.table_name sel.chunk_times _ during))

  -- A snapshot, whether it succeeds, fails or stages files at any of its tables, leaves a buffer whose
  -- tables are all safe to query, if it found one and the other tasks keep it so.
  pub do_snapshot-IsSafe :
      (snapshot_interval_secs now_ns : ℤ) (trips : List Trip) (site : Site)
      → All KeepsSafe trips
      → IsSafe site.node.buffer
      → AtEnd
          (λ (node : Node). IsSafe node.buffer)
          (do_snapshot w encode_meta config snapshot_interval_secs now_ns trips site)
  do_snapshot-IsSafe secs now_ns trips site keeps h =
      let P : List Trip → Node → Type 0 = λ rest node. All KeepsSafe rest × IsSafe node.buffer in
      AtEnd-map (P []) (λ (node : Node). IsSafe node.buffer)
        (do_snapshot w encode_meta config secs now_ns trips site) (λ node p. p.1)
        (do_snapshot-keeps w encode_meta config P (λ rest node p. (tt, p.1))
          (λ sel trip rest before p. (p.0.1, flush_table-IsSafe sel trip before p.0.0 p.1)) secs
          now_ns trips site (keeps, h))
