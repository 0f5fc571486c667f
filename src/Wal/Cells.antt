-- ===== src/Wal/Cells.antt =====
-- wal/wal_core.rs: what a batch does to the chunk of one period of one table.
use iedb_agent.Base.{
  ℕ, ◌≡◌, refl, ap, subst, Bool, ◌&&◌, List, Option, none, some, arith, length, Bool-cases, inl,
  inr, if◌then◌else◌,
}
use iedb_agent.Base.Int.{ℤ, eqb_ℤ, eqb_ℤ_iff}
use iedb_agent.Base.Text.{Str, str_eq, str_eq_iff}
use iedb_agent.Buffer.{Buffer, get_table, table_or_new, get_table-get_or_create_table}
use iedb_agent.Buffer.Chunk
use iedb_agent.Buffer.Chunk.{Row, Chunk}
use iedb_agent.Buffer.Table.{Table}
use iedb_agent.Buffer.Table.Order.{
  place, find_chunk, chunk_or_new, find_chunk-place_self, find_chunk-place_ne,
}
use iedb_agent.Wal.{WriteBatch}
use iedb_agent.Wal.Apply.{insert_rows, apply_to_table, apply_write_batch}
use iedb_agent.Wal.Rows.{chunk_time-insert_rows}
use iedb_agent.Wal.Valid.{IsSafeTable, schema_after, change, chunks-apply_to_table}

abbrev pub chunk_at : ℤ → Option Table → Chunk
chunk_at t none = Chunk.new t
chunk_at t (some table) = chunk_or_new t (find_chunk t table.chunks)

-- The chunk of a period of a table, or a new one if there is none.
abbrev pub cell : Str → Str → ℤ → Buffer → Chunk
cell db name t buffer = chunk_at t (get_table db name buffer)

abbrev pub is_for : Str → Str → ℤ → WriteBatch → Bool
is_for db name t batch =
    str_eq batch.db_name db && (str_eq batch.table_name name && eqb_ℤ batch.chunk_time t)

chunk_at-table_or_new :
    (name : Str) (t : ℤ) (o : Option Table)
    → chunk_or_new t (find_chunk t (table_or_new name o).chunks) ≡ chunk_at t o
chunk_at-table_or_new name t none = refl
chunk_at-table_or_new name t (some table) = refl

-- The chunk after the rows of a batch went into it.
abbrev pub filled : List Str → ℕ → List Row → Chunk → Chunk
filled keys seq rows c = insert_rows keys seq (length c.rows) 0 rows c

module _ (batch : WriteBatch) (seq : ℕ) (table : Table) where
  change-KeepsTime : (c : Chunk) → (change batch seq table c).chunk_time ≡ c.chunk_time
  change-KeepsTime c = chunk_time-insert_rows _ seq (length c.rows) 0 batch.rows c

  chunk_at-apply_to_table :
      (t : ℤ)
      → IsSafeTable table
      → chunk_at t (some (apply_to_table batch seq table)) ≡ (
          if eqb_ℤ batch.chunk_time t
          then change batch seq table (chunk_at t (some table))
          else chunk_at t (some table))
  chunk_at-apply_to_table t safe =
      rw (chunks-apply_to_table batch seq table) (elim (Bool-cases (eqb_ℤ batch.chunk_time t)) [
        | inl same ↦ rw same (subst at_own ((eqb_ℤ_iff batch.chunk_time t).0 same) own)
        | inr other ↦ rw other (
            ap (chunk_or_new t) (
              find_chunk-place_ne batch.chunk_time (change batch seq table) change-KeepsTime t
                table.chunks (λ e. ground (arith, other, eqb_ℤ_iff batch.chunk_time t, e))))
      ])
    where
      at_own : ℤ → Type 0
      at_own u =
          chunk_or_new u
            (find_chunk u (place batch.chunk_time (change batch seq table) table.chunks))
          ≡ change batch seq table (chunk_or_new u (find_chunk u table.chunks))

      own : at_own batch.chunk_time
      own = ap (chunk_or_new batch.chunk_time) (
          find_chunk-place_self batch.chunk_time (change batch seq table) change-KeepsTime
            table.chunks safe.sorted)

-- A batch fills the chunk that it is for with its rows, and leaves every other.
pub cell-apply_write_batch :
    (db name : Str) (t : ℤ) (batch : WriteBatch) (seq : ℕ) (buffer : Buffer)
    → IsSafeTable (table_or_new batch.table_name (get_table batch.db_name batch.table_name buffer))
    → (keys : List Str) × (cell db name t (apply_write_batch buffer batch seq) ≡ (
        if is_for db name t batch
        then filled keys seq batch.rows (cell db name t buffer)
        else cell db name t buffer))
unfolding apply_write_batch
cell-apply_write_batch db name t batch seq buffer safe =
    let old = get_table batch.db_name batch.table_name buffer in
    let new = table_or_new batch.table_name old in
    (
      (schema_after batch new).tag_keys,
      rw
          (get_table-get_or_create_table batch.db_name batch.table_name db name
            (apply_to_table batch seq) buffer)
          (elim (Bool-cases (str_eq batch.db_name db)) [
            | inl same ↦ rw same (elim (Bool-cases (str_eq batch.table_name name)) [
              | inl also ↦
                  rw
                    (
                      also,
                      chunk_at-apply_to_table batch seq new t safe,
                      chunk_at-table_or_new batch.table_name t old,
                      (str_eq_iff batch.db_name db).0 same,
                      (str_eq_iff batch.table_name name).0 also,
                    )
                    refl
              | inr ne ↦ rw ne refl
            ])
            | inr ne ↦ rw ne refl
          ]),
    )
