-- ===== src/Wal/Contents.antt =====
-- wal/wal_core.rs: the buffer as a log of rows, and when it can be queried.
use iedb_agent.Base.{
  ℕ, ◌≡◌, refl, List, [], ◌∷◌, ◌++◌, append_assoc, append-nil, Option, none, some, arith, length,
  Bool-cases, Option-cases, inl, inr, if◌then◌else◌,
}
use iedb_agent.Base.Int.{ℤ}
use iedb_agent.Base.Text.{Str, str_eq}
use iedb_agent.Base.Dict.{lookup}
use iedb_agent.Buffer
use iedb_agent.Buffer.{
  Buffer, get_table, table_or_new, get_or_create_table, get_table-get_or_create_table,
}
use iedb_agent.Buffer.Chunk.{Row, Chunk}
use iedb_agent.Buffer.Table
use iedb_agent.Buffer.Table.{Table}
use iedb_agent.Buffer.Table.Order.{find_chunk, chunk_or_new}
use iedb_agent.Buffer.Query.{Json, QueryRow, query, query_found}
use iedb_agent.Buffer.Query.Scan.{query_table_total}
use iedb_agent.Wal.{WriteBatch, WalOp, write, noop}
use iedb_agent.Wal.Apply.{apply_to_table, apply_write_batch, apply_op, apply_ops}
use iedb_agent.Wal.Cells.{chunk_at, cell, is_for, cell-apply_write_batch}
use iedb_agent.Wal.Rows.{rows-insert_rows}
use iedb_agent.Wal.Valid.{IsSafeTable, apply_to_table-IsSafeTable}

-- Every table that the buffer has is safe.
pub record IsSafe (buffer : Buffer) : Type 0 where
  pub tables : (db name : Str) (t : Table) → get_table db name buffer ≡ some t → IsSafeTable t

pub new-IsSafe : IsSafe Buffer.new
unfolding get_table lookup
new-IsSafe = record { tables = λ db name t e. cc }

abbrev pub SafeAt : Option Table → Type 0
SafeAt none = Unit
SafeAt (some t) = IsSafeTable t

pub at_some : (o : Option Table) (t : Table) → SafeAt o → o ≡ some t → IsSafeTable t
at_some none t h e = cc
at_some (some u) t h e = ground (arith, h)

pub safe_at : (buffer : Buffer) (db name : Str) → IsSafe buffer → SafeAt (get_table db name buffer)
safe_at buffer db name h = elim (Option-cases (get_table db name buffer)) [
  | inl absent ↦ rw absent tt
  | inr (t, e) ↦ rw e (h.tables db name t e)
]

new-IsSafeTable : (name : Str) → IsSafeTable (Table.new name)
new-IsSafeTable name = record { sorted = tt; within = tt; bounded = tt }

or_new-IsSafeTable : (name : Str) (o : Option Table) → SafeAt o → IsSafeTable (table_or_new name o)
or_new-IsSafeTable name none h = new-IsSafeTable name
or_new-IsSafeTable name (some t) h = h

pub apply_write_batch-IsSafe :
    (buffer : Buffer) (batch : WriteBatch) (seq : ℕ)
    → IsSafe buffer
    → IsSafe (apply_write_batch buffer batch seq)
unfolding apply_write_batch
apply_write_batch-IsSafe buffer batch seq h =
    let db = batch.db_name in
    let name = batch.table_name in
    let made : IsSafeTable
        (apply_to_table batch seq (table_or_new name (get_table db name buffer))) =
      apply_to_table-IsSafeTable batch seq (table_or_new name (get_table db name buffer))
        (or_new-IsSafeTable name (get_table db name buffer) (safe_at buffer db name h)) in
    let at : (d j : Str)
        → SafeAt (get_table d j (get_or_create_table db name (apply_to_table batch seq) buffer)) =
      λ d j.
        rw (get_table-get_or_create_table db name d j (apply_to_table batch seq) buffer)
          (elim (Bool-cases (str_eq db d)) [
            | inl same ↦ rw same (elim (Bool-cases (str_eq name j)) [
              | inl also ↦ rw also made
              | inr ne ↦ rw ne (safe_at buffer d j h)
            ])
            | inr ne ↦ rw ne (safe_at buffer d j h)
          ]) in
    record { tables = λ d j t e. at_some (get_table d j _) t (at d j) e }

pub apply_ops-IsSafe :
    (seq : ℕ) (ops : List WalOp) (buffer : Buffer)
    → IsSafe buffer
    → IsSafe (apply_ops seq ops buffer)
unfolding apply_ops apply_op
apply_ops-IsSafe seq [] buffer h = h
apply_ops-IsSafe seq (write batch ∷ ops) buffer h =
    apply_ops-IsSafe seq ops (apply_write_batch buffer batch seq)
      (apply_write_batch-IsSafe buffer batch seq h)
apply_ops-IsSafe seq (noop ∷ ops) buffer h = apply_ops-IsSafe seq ops buffer h

-- A query of a safe buffer does not panic.
pub query_total :
    (json : Json) (buffer : Buffer) (db name : Str) (start_ns end_ns : Option ℤ)
    (tag_key tag_value : Option Str)
    → IsSafe buffer
    → (out : Option (List (QueryRow json))) × (query json buffer db name start_ns end_ns tag_key
          tag_value
        ≡ some out)
unfolding query
query_total json buffer db name start_ns end_ns tag_key tag_value h =
    at (get_table db name buffer) (safe_at buffer db name h)
  where
    at :
        (o : Option Table)
        → SafeAt o
        → (out : Option (List (QueryRow json))) × (query_found json start_ns end_ns tag_key
              tag_value o
            ≡ some out)
    at none safe = (none, refl)
    at (some t) safe =
        let (rows, e) = query_table_total json start_ns end_ns tag_key tag_value t safe.within in
        (some rows, rw (e, query_found))

abbrev pub rows_of_chunk : Option Chunk → List Row
rows_of_chunk none = []
rows_of_chunk (some c) = c.rows

abbrev pub rows_of_table : ℤ → Option Table → List Row
rows_of_table t none = []
rows_of_table t (some table) = rows_of_chunk (find_chunk t table.chunks)

-- The rows that the buffer has for a period of a table.
abbrev pub rows_in : Str → Str → ℤ → Buffer → List Row
rows_in db name t buffer = rows_of_table t (get_table db name buffer)

-- The rows of the operations, in order, that are for a period of a table.
abbrev pub logged : Str → Str → ℤ → List WalOp → List Row
logged db name t [] = []
logged db name t (write batch ∷ ops) =
    (if is_for db name t batch then batch.rows else []) ++ logged db name t ops
logged db name t (noop ∷ ops) = logged db name t ops

rows_of_new : (t : ℤ) (o : Option Chunk) → (chunk_or_new t o).rows ≡ rows_of_chunk o
rows_of_new t none = refl
rows_of_new t (some c) = refl

rows-chunk_at : (t : ℤ) (o : Option Table) → (chunk_at t o).rows ≡ rows_of_table t o
rows-chunk_at t none = refl
rows-chunk_at t (some table) = rows_of_new t (find_chunk t table.chunks)

pub rows-cell :
    (db name : Str) (t : ℤ) (buffer : Buffer)
    → (cell db name t buffer).rows ≡ rows_in db name t buffer
rows-cell db name t buffer = rows-chunk_at t (get_table db name buffer)

-- The table that a batch changes is safe, also if it is new.
pub table_or_new-IsSafeTable :
    (batch : WriteBatch) (buffer : Buffer)
    → IsSafe buffer
    → IsSafeTable (table_or_new batch.table_name (get_table batch.db_name batch.table_name buffer))
table_or_new-IsSafeTable batch buffer h =
    or_new-IsSafeTable batch.table_name (get_table batch.db_name batch.table_name buffer)
      (safe_at buffer batch.db_name batch.table_name h)

rows_in-apply_write_batch :
    (db name : Str) (t : ℤ) (batch : WriteBatch) (seq : ℕ) (buffer : Buffer)
    → IsSafe buffer
    → rows_in db name t (apply_write_batch buffer batch seq)
      ≡ rows_in db name t buffer ++ (if is_for db name t batch then batch.rows else [])
rows_in-apply_write_batch db name t batch seq buffer h =
    let c = cell db name t buffer in
    let (keys, e) =
      cell-apply_write_batch db name t batch seq buffer (table_or_new-IsSafeTable batch buffer h) in
    rw (← rows-cell db name t (apply_write_batch buffer batch seq), ← rows-cell db name t buffer, e)
      (elim (Bool-cases (is_for db name t batch)) [
        | inl hit ↦ rw hit (rows-insert_rows keys seq (length c.rows) 0 batch.rows c)
        | inr miss ↦ rw (miss, append-nil c.rows) refl
      ])

-- Applying the operations of a WAL file to a buffer whose tables are safe adds, for every period of
-- every table, the rows of the batches for it, in their order, behind the rows it had, and nothing
-- else.
pub rows_in-apply_ops :
    (db name : Str) (t : ℤ) (seq : ℕ) (ops : List WalOp) (buffer : Buffer)
    → IsSafe buffer
    → rows_in db name t (apply_ops seq ops buffer)
      ≡ rows_in db name t buffer ++ logged db name t ops
unfolding apply_ops apply_op
rows_in-apply_ops db name t seq [] buffer h = rw (append-nil (rows_in db name t buffer)) refl
rows_in-apply_ops db name t seq (write batch ∷ ops) buffer h =
    rw
      (
        rows_in-apply_ops db name t seq ops (apply_write_batch buffer batch seq)
            (apply_write_batch-IsSafe buffer batch seq h),
        rows_in-apply_write_batch db name t batch seq buffer h,
      )
      (append_assoc (rows_in db name t buffer) _ (logged db name t ops))
rows_in-apply_ops db name t seq (noop ∷ ops) buffer h = rows_in-apply_ops db name t seq ops buffer h
