-- ===== src/Node/Covered.antt =====
-- wal/wal_core.rs: each chunk in memory, and the WAL files from its lowest number on.
pub mod Flushed
pub mod Replayed
pub mod Booted
pub mod Restart
use iedb_agent.Base.{
  ℕ, ◌+◌, ◌-◌, ◌^◌, ◌≤◌, ◌<◌, ◌≡◌, ◌⊎◌, refl, sym, ap, ◌∙◌, Bool, List, [], ◌∷◌, ◌++◌, append_assoc,
  append-nil, Option, none, some, arith, length, ltb, Bool-cases, inl, inr, if◌then◌else◌, true,
  false, All,
}
use iedb_agent.Base.Int.{ℤ, u64_max, eqb_ℤ}
use iedb_agent.Base.Text.{Str, Bytes}
use iedb_agent.Base.Dict.{Dict}
use iedb_agent.Buffer.{Buffer, get_table}
use iedb_agent.Buffer.Chunk
use iedb_agent.Buffer.Chunk.{Row, Chunk}
use iedb_agent.Buffer.Table.{Table}
use iedb_agent.Buffer.Table.Order.{find_chunk, chunk_or_new}
use iedb_agent.Buffer.Everywhere.{Everywhere, ChunksOf, get_table-Everywhere}
use iedb_agent.Wal.{WriteBatch, WalOp, write, noop}
use iedb_agent.Wal.Apply.{apply_write_batch, apply_op, apply_ops}
use iedb_agent.Wal.Serialize.{Codec}
use iedb_agent.Wal.Files.{AllBelow}
use iedb_agent.Wal.Rows.{least, insert_rows-least, rows-insert_rows}
use iedb_agent.Wal.Cells.{cell, chunk_at, is_for, filled, cell-apply_write_batch}
use iedb_agent.Wal.Contents.{IsSafe, logged, table_or_new-IsSafeTable, apply_write_batch-IsSafe}
use iedb_agent.Wal.Everywhere.{apply_write_batch-Everywhere}
use iedb_agent.Wal.Manager.{load_last_snapshot}
use iedb_agent.Node.{Node}
use iedb_agent.Node.Log.{since, since_none}

-- The number of a chunk, with those of the snapshot and of the next file.
abbrev pub IsFrom : ℕ → ℕ → Chunk → Type 0
IsFrom flushed next c =
    (flushed < c.min_wal_seq) × ((c.min_wal_seq < next) ⊎ (c.min_wal_seq ≡ u64_max))

module _ (codec : Codec) (read_meta : Bytes → Option ℕ) where
  -- The tables are safe; files, chunks and the snapshot have numbers below the next one, the chunks
  -- above the snapshot's; and each chunk has exactly the rows of the files from its number on.
  pub record IsCovered (node : Node) : Type 0 where
    pub safe : IsSafe node.buffer
    pub below : AllBelow node.wal.current_seq node.disk.wal_dir
    pub above : load_last_snapshot read_meta node.disk < node.wal.current_seq
    pub numbers :
        Everywhere
          (IsFrom (load_last_snapshot read_meta node.disk) node.wal.current_seq)
          node.buffer.databases
    pub rows :
        (db name : Str) (t : ℤ)
        → let c = cell db name t node.buffer in
          since codec db name t (c.min_wal_seq - 1) node.disk.wal_dir ≡ c.rows

  -- Covered, with numbers left for `k` more files.
  abbrev pub HasRoom : ℕ → Node → Type 0
  HasRoom k node = (node.wal.current_seq + k < 2 ^ 64) × IsCovered node

chunk_or_new-IsFrom :
    (flushed next : ℕ) (t : ℤ) (cs : List Chunk)
    → flushed < u64_max
    → All (IsFrom flushed next) cs
    → IsFrom flushed next (chunk_or_new t (find_chunk t cs))
chunk_or_new-IsFrom flushed next t [] h all = (h, inr refl)
chunk_or_new-IsFrom flushed next t (c ∷ cs) h all = elim (Bool-cases (eqb_ℤ c.chunk_time t)) [
  | inl same ↦ rw same all.0
  | inr other ↦ rw other (chunk_or_new-IsFrom flushed next t cs h all.1)
]

pub cell-IsFrom :
    (flushed next : ℕ) (db name : Str) (t : ℤ) (buffer : Buffer)
    → flushed < u64_max
    → Everywhere (IsFrom flushed next) buffer.databases
    → IsFrom flushed next (cell db name t buffer)
cell-IsFrom flushed next db name t buffer h all =
    at (get_table db name buffer) (get_table-Everywhere (IsFrom flushed next) db name buffer all)
  where
    at : (o : Option Table) → ChunksOf (IsFrom flushed next) o → IsFrom flushed next (chunk_at t o)
    at none c = (h, inr refl)
    at (some table) c = chunk_or_new-IsFrom flushed next t table.chunks h c

logged-append :
    (db name : Str) (t : ℤ) (ops more : List WalOp)
    → logged db name t (ops ++ more) ≡ logged db name t ops ++ logged db name t more
logged-append db name t [] more = refl
logged-append db name t (write batch ∷ ops) more =
    ap (λ rows. (if is_for db name t batch then batch.rows else []) ++ rows)
      (logged-append db name t ops more)
    ∙ sym (append_assoc _ (logged db name t ops) (logged db name t more))
logged-append db name t (noop ∷ ops) more = logged-append db name t ops more

module _ (db name : Str) (t : ℤ) (seq : ℕ) (old : ℕ → List Row) (positive : 1 ≤ seq)
    (high : seq < u64_max) where
  -- A chunk while the operations of file `seq` are applied, some of them done: it has the rows of the
  -- older files from its number on and then those of the operations done, or it has none at all.
  pub data IsOn (done : List Row) (c : Chunk) : Type 0 where
    numbered : c.min_wal_seq ≤ seq → old (c.min_wal_seq - 1) ++ done ≡ c.rows → IsOn done c
    unused : c.min_wal_seq ≡ u64_max → done ≡ [] → old (seq - 1) ≡ [] → c.rows ≡ [] → IsOn done c

  least_low : (rows : List Row) (m : ℕ) → m ≤ seq → least seq rows m ≡ m
  least_low [] m h = refl
  least_low (row ∷ rows) m h = ground arith

  filled-IsOn :
      (keys : List Str) (done rows : List Row) (c : Chunk)
      → IsOn done c
      → IsOn (done ++ rows) (filled keys seq rows c)
  filled-IsOn keys done rows c (numbered low e) =
      let kept =
        insert_rows-least keys seq (length c.rows) 0 rows c ∙ least_low rows c.min_wal_seq low in
      numbered (rw kept low) (
        rw (kept, rows-insert_rows keys seq (length c.rows) 0 rows c)
          (sym (append_assoc _ done rows) ∙ ap (λ old. old ++ rows) e))
  filled-IsOn keys done [] c (unused top nothing new empty) =
      unused (rw (insert_rows-least keys seq (length c.rows) 0 [] c) top) (rw nothing refl) new
        (rw (rows-insert_rows keys seq (length c.rows) 0 [] c, empty) refl)
  filled-IsOn keys done (row ∷ rows) c (unused top nothing new empty) =
      let now : (filled keys seq (row ∷ rows) c).min_wal_seq ≡ seq =
        insert_rows-least keys seq (length c.rows) 0 (row ∷ rows) c ∙ ground (arith, top, high) in
      numbered (rw now (omega arith)) (
        rw (now, new, rows-insert_rows keys seq (length c.rows) 0 (row ∷ rows) c, nothing, empty)
          refl)

  apply_op-IsOn :
      (done : List WalOp) (op : WalOp) (buffer : Buffer)
      → IsSafe buffer
      → IsOn (logged db name t done) (cell db name t buffer)
      → IsOn (logged db name t (done ++ op ∷ [])) (cell db name t (apply_op seq buffer op))
  unfolding apply_op
  apply_op-IsOn done noop buffer safe h =
      rw (logged-append db name t done (noop ∷ []), append-nil (logged db name t done)) h
  apply_op-IsOn done (write batch) buffer safe h =
      let c = cell db name t buffer in
      let (keys, e) =
        cell-apply_write_batch db name t batch seq buffer
          (table_or_new-IsSafeTable batch buffer safe) in
      rw (logged-append db name t done (write batch ∷ []), e)
        (elim (Bool-cases (is_for db name t batch)) [
          | inl hit ↦
              rw (hit, append-nil batch.rows)
                (filled-IsOn keys (logged db name t done) batch.rows c h)
          | inr miss ↦ rw (miss, append-nil (logged db name t done)) h
        ])

  apply_op-IsSafe : (op : WalOp) (buffer : Buffer) → IsSafe buffer → IsSafe (apply_op seq buffer op)
  unfolding apply_op
  apply_op-IsSafe noop buffer h = h
  apply_op-IsSafe (write batch) buffer h = apply_write_batch-IsSafe buffer batch seq h

  pub apply_ops-IsOn :
      (done ops : List WalOp) (buffer : Buffer)
      → IsSafe buffer
      → IsOn (logged db name t done) (cell db name t buffer)
      → IsOn (logged db name t (done ++ ops)) (cell db name t (apply_ops seq ops buffer))
  unfolding apply_ops
  apply_ops-IsOn done [] buffer safe h = rw (append-nil done) h
  apply_ops-IsOn done (op ∷ ops) buffer safe h = rw (sym (append_assoc done (op ∷ []) ops)) (
      apply_ops-IsOn (done ++ op ∷ []) ops (apply_op seq buffer op) (apply_op-IsSafe op buffer safe)
        (apply_op-IsOn done op buffer safe h))
