-- ===== src/Flush/Snapshot/Sequence.antt =====
-- flush/scheduler.rs: the number that a snapshot writes, and a restart after its clean-up.
use iedb_agent.Base.{Bool-cases, inl, inr}
use iedb_agent.Base.{
  ℕ, ◌-◌, ◌≤◌, ◌<◌, ◌≡◌, refl, List, [], ◌∷◌, Option, none, some, arith, All, All-map, ltb, ◌==◌,
  if◌then◌else◌,
}
use iedb_agent.Base.Int.{u64_max}
use iedb_agent.Base.Text.{Bytes}
use iedb_agent.Base.Dict.{Dict}
use iedb_agent.Buffer.{Buffer, get_table_mut}
use iedb_agent.Buffer.Chunk.{Chunk}
use iedb_agent.Buffer.Table.{Table}
use iedb_agent.Config.{Config}
use iedb_agent.Flush.Parquet.{Writer}
use iedb_agent.Buffer.Everywhere.{Tables, Everywhere, Tables-map, Everywhere-map, Everywhere-zip}
use iedb_agent.Wal.Serialize.{Codec}
use iedb_agent.Wal.Files.{files_above, sort_by_seq, files_above-cleanup}
use iedb_agent.Wal.Manager.{WalManager, load_last_snapshot, replay, replay_files, current_sequence}
use iedb_agent.Flush.Snapshot.{
  Selection, Site, done, retain_others, min_of_chunks, min_of_tables, min_of_dbs, snapshot_wal_seq,
  with_meta, finish_upload,
}

-- The chunk's rows came from WAL files whose numbers are in range.
abbrev pub IsNumbered : Chunk → Type 0
IsNumbered c = (1 ≤ c.min_wal_seq) × (c.min_wal_seq < u64_max)

abbrev pub From : ℕ → Chunk → Type 0
From m c = m ≤ c.min_wal_seq

From-le : (m n : ℕ) → m ≤ n → (c : Chunk) → From n c → From m c
From-le m n h c f = omega arith

min_of_chunks_le : (m : ℕ) (cs : List Chunk) → min_of_chunks m cs ≤ m
unfolding min_of_chunks
min_of_chunks_le m [] = omega arith
min_of_chunks_le m (c ∷ cs) =
    ground (arith, min_of_chunks_le (if ltb c.min_wal_seq m then c.min_wal_seq else m) cs)

min_of_chunks-From : (m : ℕ) (cs : List Chunk) → All (From (min_of_chunks m cs)) cs
unfolding min_of_chunks
min_of_chunks-From m [] = tt
min_of_chunks-From m (c ∷ cs) =
    let n = if ltb c.min_wal_seq m then c.min_wal_seq else m in
    (ground (arith, min_of_chunks_le n cs), min_of_chunks-From n cs)

-- Whatever holds of the start and of every chunk's number holds of the least.
module _ (P : ℕ → Type 0) where
  min_of_chunks-one :
      (m : ℕ) (cs : List Chunk) → P m → All (λ c. P c.min_wal_seq) cs → P (min_of_chunks m cs)
  unfolding min_of_chunks
  min_of_chunks-one m [] p h = p
  min_of_chunks-one m (c ∷ cs) p h = elim (Bool-cases (ltb c.min_wal_seq m)) [
    | inl less ↦ rw less (min_of_chunks-one c.min_wal_seq cs h.0 h.1)
    | inr more ↦ rw more (min_of_chunks-one m cs p h.1)
  ]

  min_of_tables-one :
      (m : ℕ) (ts : Dict Table) → P m → Tables (λ c. P c.min_wal_seq) ts → P (min_of_tables m ts)
  unfolding min_of_tables
  min_of_tables-one m [] p h = p
  min_of_tables-one m ((_, t) ∷ ts) p h =
      min_of_tables-one (min_of_chunks m t.chunks) ts (min_of_chunks-one m t.chunks p h.0) h.1

  pub min_of_dbs-one :
      (m : ℕ) (dbs : Dict (Dict Table))
      → P m
      → Everywhere (λ c. P c.min_wal_seq) dbs
      → P (min_of_dbs m dbs)
  unfolding min_of_dbs
  min_of_dbs-one m [] p h = p
  min_of_dbs-one m ((_, ts) ∷ dbs) p h =
      min_of_dbs-one (min_of_tables m ts) dbs (min_of_tables-one m ts p h.0) h.1

min_of_tables_le : (m : ℕ) (ts : Dict Table) → min_of_tables m ts ≤ m
unfolding min_of_tables
min_of_tables_le m [] = omega arith
min_of_tables_le m ((_, t) ∷ ts) =
    ground (arith, min_of_chunks_le m t.chunks, min_of_tables_le (min_of_chunks m t.chunks) ts)

min_of_tables-From : (m : ℕ) (ts : Dict Table) → Tables (From (min_of_tables m ts)) ts
unfolding min_of_tables
min_of_tables-From m [] = tt
min_of_tables-From m ((_, t) ∷ ts) =
    let n = min_of_chunks m t.chunks in
    (
      All-map (From n) (From (min_of_tables n ts)) (From-le _ n (min_of_tables_le n ts)) t.chunks
          (min_of_chunks-From m t.chunks),
      min_of_tables-From n ts,
    )

min_of_dbs_le : (m : ℕ) (dbs : Dict (Dict Table)) → min_of_dbs m dbs ≤ m
unfolding min_of_dbs
min_of_dbs_le m [] = omega arith
min_of_dbs_le m ((_, ts) ∷ dbs) =
    ground (arith, min_of_tables_le m ts, min_of_dbs_le (min_of_tables m ts) dbs)

pub min_of_dbs-From : (m : ℕ) (dbs : Dict (Dict Table)) → Everywhere (From (min_of_dbs m dbs)) dbs
unfolding min_of_dbs
min_of_dbs-From m [] = tt
min_of_dbs-From m ((_, ts) ∷ dbs) =
    let n = min_of_tables m ts in
    (
      Tables-map (From n) (From (min_of_dbs n dbs)) (From-le _ n (min_of_dbs_le n dbs)) ts
          (min_of_tables-From m ts),
      min_of_dbs-From n dbs,
    )

-- If every chunk has a number from 1 to below the greatest, the snapshot's number is below the
-- number of each of them: no file that a chunk in memory may need is counted as flushed.
pub snapshot_wal_seq_below :
    (buffer : Buffer) (wal : WalManager)
    → Everywhere IsNumbered buffer.databases
    → Everywhere (λ (c : Chunk). snapshot_wal_seq buffer wal < c.min_wal_seq) buffer.databases
unfolding snapshot_wal_seq
snapshot_wal_seq_below buffer wal h =
    let m = min_of_dbs u64_max buffer.databases in
    Everywhere-map (λ c. From m c × IsNumbered c)
      (λ c. (if m == u64_max then current_sequence wal - 1 else m - 1) < c.min_wal_seq)
      (λ c k. ground (arith, k)) buffer.databases
      (Everywhere-zip (From m) IsNumbered buffer.databases
        (min_of_dbs-From u64_max buffer.databases) h)

-- The restart after a snapshot replays the files above its number, as they were before the clean-up.
pub replay-finish_upload :
    (codec : Codec) (read_meta : Bytes → Option ℕ) (w : Writer) (encode_meta : ℕ → Bytes)
    (config : Config) (sel : Selection) (site : Site) (buffer : Buffer)
    → ((n : ℕ) → read_meta (encode_meta n) ≡ some n)
    → let kept =
        get_table_mut sel.db_name sel.table_name (retain_others sel.chunk_times) site.node.buffer in
      let seq = snapshot_wal_seq kept site.node.wal in
      (after : Site) × (finish_upload w encode_meta config sel none site ≡ done 1 after)
      × (after.node.buffer ≡ kept)
      × (replay codec read_meta after.node.disk buffer
          ≡ replay_files codec (sort_by_seq (files_above seq site.node.disk.wal_dir)) buffer)
unfolding finish_upload with_meta replay load_last_snapshot
replay-finish_upload codec read_meta w encode_meta config sel site buffer reads =
    let kept =
      get_table_mut sel.db_name sel.table_name (retain_others sel.chunk_times) site.node.buffer in
    let seq = snapshot_wal_seq kept site.node.wal in
    (
      _,
      refl,
      refl,
      rw (reads seq, files_above-cleanup seq seq site.node.disk.wal_dir (omega arith)) refl,
    )
