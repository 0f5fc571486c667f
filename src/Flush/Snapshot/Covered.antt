-- ===== src/Flush/Snapshot/Covered.antt =====
-- flush/scheduler.rs: a snapshot, and the WAL files that cover the chunks left in memory.
use iedb_agent.Base.{
  ℕ, ◌-◌, ◌^◌, ◌≤◌, ◌<◌, ◌≡◌, ◌⊎◌, refl, ◌∙◌, List, [], ◌∷◌, Option, none, some, arith, ◌==◌,
  Bool-cases, inl, inr, if◌then◌else◌,
}
use iedb_agent.Base.Int.{ℤ, u64_max}
use iedb_agent.Base.Text.{Str, Bytes, str_eq}
use iedb_agent.Base.Dict.{Dict}
use iedb_agent.Config.{Config}
use iedb_agent.Buffer.{Buffer, get_table, get_table_mut, changed, get_table-get_table_mut}
use iedb_agent.Buffer.Chunk
use iedb_agent.Buffer.Chunk.{Chunk}
use iedb_agent.Buffer.Table.{Table}
use iedb_agent.Buffer.Everywhere.{
  Everywhere, Everywhere-map, Everywhere-zip, get_table_mut-Everywhere,
}
use iedb_agent.Wal.Serialize.{Codec}
use iedb_agent.Wal.Files.{cleanup, AllBelow}
use iedb_agent.Wal.Cells.{cell, chunk_at}
use iedb_agent.Wal.Manager.{WalManager, current_sequence, load_last_snapshot}
use iedb_agent.Node.{Node}
use iedb_agent.Node.Log.{since_none, since-cleanup}
use iedb_agent.Node.Covered.{IsFrom, IsCovered, cell-IsFrom}
use iedb_agent.Flush.Parquet.{Writer}
use iedb_agent.Flush.Snapshot.{
  Selection, Site, retain_others, has_time, snapshot_wal_seq, min_of_dbs, with_meta, finish_upload,
  meta_left,
}
use iedb_agent.Flush.Snapshot.Cycle.{the_site}
use iedb_agent.Flush.Snapshot.Removed.{find_chunk-retain_others}
use iedb_agent.Flush.Snapshot.Safe.{get_table_mut-IsSafe, All-filter}
use iedb_agent.Flush.Snapshot.Sequence.{From, min_of_dbs-From, min_of_dbs-one}

AllBelow-cleanup :
    (n through : ℕ) (wal_dir : Dict (Option Bytes))
    → AllBelow n wal_dir
    → AllBelow n (cleanup through wal_dir)
unfolding cleanup
AllBelow-cleanup n through [] h = tt
AllBelow-cleanup n through ((name, bytes) ∷ entries) h =
    ground (arith, h.0, AllBelow-cleanup n through entries h.1)

module _ (flushed next : ℕ) (low : flushed < next) (high : next ≤ u64_max) (buffer : Buffer)
    (wal : WalManager) (is_next : wal.current_seq ≡ next)
    (h : Everywhere (IsFrom flushed next) buffer.databases) where
  snapshot_wal_seq-next : snapshot_wal_seq buffer wal < next
  unfolding snapshot_wal_seq current_sequence
  snapshot_wal_seq-next =
      let bound : (min_of_dbs u64_max buffer.databases < next)
          ⊎ (min_of_dbs u64_max buffer.databases ≡ u64_max) =
        min_of_dbs-one (λ m. (m < next) ⊎ (m ≡ u64_max)) u64_max buffer.databases (inr refl)
          (Everywhere-map (IsFrom flushed next)
            (λ c. (c.min_wal_seq < next) ⊎ (c.min_wal_seq ≡ u64_max)) (λ c k. k.1) buffer.databases
            h) in
      ground (arith, bound, is_next, low)

  snapshot_wal_seq-IsFrom : Everywhere (IsFrom (snapshot_wal_seq buffer wal) next) buffer.databases
  unfolding snapshot_wal_seq current_sequence
  snapshot_wal_seq-IsFrom =
      let m = min_of_dbs u64_max buffer.databases in
      Everywhere-map (λ c. From m c × IsFrom flushed next c)
        (IsFrom (if m == u64_max then wal.current_seq - 1 else m - 1) next)
        (λ c k. (ground (arith, k, is_next), k.1.1)) buffer.databases
        (Everywhere-zip (From m) (IsFrom flushed next) buffer.databases
          (min_of_dbs-From u64_max buffer.databases) h)

chunk_at-changed :
    (chunk_times : List ℤ) (t : ℤ) (o : Option Table)
    → (chunk_at t (changed (retain_others chunk_times) o) ≡ chunk_at t o)
      ⊎ (chunk_at t (changed (retain_others chunk_times) o) ≡ Chunk.new t)
chunk_at-changed chunk_times t none = inl refl
chunk_at-changed chunk_times t (some table) = elim (Bool-cases (has_time chunk_times t)) [
  | inl gone ↦ inr (rw (find_chunk-retain_others chunk_times t table, gone) refl)
  | inr stays ↦ inl (rw (find_chunk-retain_others chunk_times t table, stays) refl)
]

-- After the removal a period of a table has the chunk that it had, or none.
cell-get_table_mut :
    (d j : Str) (chunk_times : List ℤ) (buffer : Buffer) (db name : Str) (t : ℤ)
    → let kept = get_table_mut d j (retain_others chunk_times) buffer in
      (cell db name t kept ≡ cell db name t buffer) ⊎ (cell db name t kept ≡ Chunk.new t)
cell-get_table_mut d j chunk_times buffer db name t =
    rw (get_table-get_table_mut d j db name (retain_others chunk_times) buffer)
      (elim (Bool-cases (str_eq d db)) [
        | inl same ↦ rw same (elim (Bool-cases (str_eq j name)) [
          | inl also ↦ rw also (chunk_at-changed chunk_times t (get_table db name buffer))
          | inr ne ↦ rw ne (inl refl)
        ])
        | inr ne ↦ rw ne (inl refl)
      ])

-- After a failed write the metadata file gives the number that it gave, or none.
abbrev pub IsTorn : (Bytes → Option ℕ) → Option (Str × Option (Option Bytes)) → Type 0
IsTorn read_meta none = Unit
IsTorn read_meta (some (_, none)) = Unit
IsTorn read_meta (some (_, some none)) = Unit
IsTorn read_meta (some (_, some (some bytes))) = read_meta bytes ≡ none

module _ (codec : Codec) (read_meta : Bytes → Option ℕ) where
  -- The node with some chunks removed.
  removed-IsCovered :
      (d j : Str) (chunk_times : List ℤ) (node : Node)
      → node.wal.current_seq < 2 ^ 64
      → IsCovered codec read_meta node
      → IsCovered codec read_meta
          (record node { buffer = get_table_mut d j (retain_others chunk_times) node.buffer })
  removed-IsCovered d j chunk_times node room h =
      let next = node.wal.current_seq in
      let flushed = load_last_snapshot read_meta node.disk in
      let kept = get_table_mut d j (retain_others chunk_times) node.buffer in
      record {
        safe = get_table_mut-IsSafe d j chunk_times node.buffer h.safe;
        below = h.below;
        above = h.above;
        numbers =
            get_table_mut-Everywhere (IsFrom flushed next) (retain_others chunk_times)
              (λ table. unfold retain_others in All-filter (IsFrom flushed next) _ table.chunks) d j
              node.buffer h.numbers;
        rows = λ db name t. elim (cell-get_table_mut d j chunk_times node.buffer db name t) [
          | inl same ↦ rw same (h.rows db name t)
          | inr new ↦ rw new (
              since_none codec db name t next (u64_max - 1) node.disk.wal_dir h.below (omega arith))
        ];
      }

  -- The node with a lower number on disk, or a higher one below those of the chunks.
  renumbered-IsCovered :
      (flushed : ℕ) (node : Node) (last_snapshot : Option Bytes)
      → load_last_snapshot read_meta (record node.disk { last_snapshot = last_snapshot }) ≡ flushed
      → flushed < node.wal.current_seq
      → Everywhere (IsFrom flushed node.wal.current_seq) node.buffer.databases
      → IsCovered codec read_meta node
      → IsCovered codec read_meta
          (record node { disk = record node.disk { last_snapshot = last_snapshot } })
  renumbered-IsCovered flushed node last_snapshot e low numbers h = record {
    safe = h.safe;
    below = h.below;
    above = rw e low;
    numbers = rw e numbers;
    rows = h.rows;
  }

  cleaned-IsCovered :
      (through : ℕ) (node : Node)
      → through ≤ load_last_snapshot read_meta node.disk
      → load_last_snapshot read_meta node.disk < u64_max
      → IsCovered codec read_meta node
      → IsCovered codec read_meta
          (record node { disk = record node.disk { wal_dir = cleanup through node.disk.wal_dir } })
  unfolding load_last_snapshot
  cleaned-IsCovered through node low high h =
      let next = node.wal.current_seq in
      let flushed = load_last_snapshot read_meta node.disk in
      record {
        safe = h.safe;
        below = AllBelow-cleanup next through node.disk.wal_dir h.below;
        above = h.above;
        numbers = h.numbers;
        rows = λ db name t.
            let c = cell db name t node.buffer in
            let (up, _) = cell-IsFrom flushed next db name t node.buffer high h.numbers in
            since-cleanup codec db name t through (c.min_wal_seq - 1) node.disk.wal_dir
              (omega arith)
            ∙ h.rows db name t;
      }

  load_torn :
      (e : Str) (left : Option (Option Bytes)) (node : Node)
      → IsTorn read_meta (some (e, left))
      → IsCovered codec read_meta node
      → IsCovered codec read_meta (record node { disk = meta_left left node.disk })
  unfolding load_last_snapshot
  load_torn e none node torn h = h
  load_torn e (some bytes) node torn h =
      renumbered-IsCovered 0 node bytes (nothing bytes torn) (omega (arith, h.above))
        (Everywhere-map (IsFrom (load_last_snapshot read_meta node.disk) node.wal.current_seq)
          (IsFrom 0 node.wal.current_seq) (λ c k. (omega (arith, k.0), k.1)) node.buffer.databases
          h.numbers)
        h
    where
      nothing :
          (b : Option Bytes)
          → IsTorn read_meta (some (e, some b))
          → load_last_snapshot read_meta (record node.disk { last_snapshot = b }) ≡ 0
      nothing none torn = refl
      nothing (some bytes) torn = rw torn refl

  module _ (encode_meta : ℕ → Bytes) (reads : (n : ℕ) → read_meta (encode_meta n) ≡ some n)
      (w : Writer) (config : Config) (sel : Selection) where
    pub finish_upload-IsCovered :
        (meta_error : Option (Str × Option (Option Bytes))) (site : Site)
        → IsTorn read_meta meta_error
        → site.node.wal.current_seq < 2 ^ 64
        → IsCovered codec read_meta site.node
        → IsCovered codec read_meta
            (the_site (finish_upload w encode_meta config sel meta_error site)).node
    unfolding finish_upload with_meta load_last_snapshot
    finish_upload-IsCovered (some (e, left)) site torn room h =
        load_torn e left _ torn
          (removed-IsCovered sel.db_name sel.table_name sel.chunk_times site.node room h)
    finish_upload-IsCovered none site torn room h =
        let node = site.node in
        let next = node.wal.current_seq in
        let kept =
          get_table_mut sel.db_name sel.table_name (retain_others sel.chunk_times) node.buffer in
        let r = removed-IsCovered sel.db_name sel.table_name sel.chunk_times node room h in
        let flushed = load_last_snapshot read_meta node.disk in
        let seq = snapshot_wal_seq kept node.wal in
        let low =
          snapshot_wal_seq-next flushed next h.above (omega arith) kept node.wal refl r.numbers in
        cleaned-IsCovered seq _ (rw (reads seq) (omega arith)) (rw (reads seq) (omega (arith, low)))
          (renumbered-IsCovered seq (record node { buffer = kept }) (some (encode_meta seq))
            (rw (reads seq) refl) low
            (snapshot_wal_seq-IsFrom flushed next h.above (omega arith) kept node.wal refl
              r.numbers)
            r)
