-- ===== src/Wal/Apply.antt =====
-- wal/wal_core.rs: `apply_write_batch`.
use iedb_agent.Base.{ℕ, suc, ◌+◌, List, [], ◌∷◌, Option, none, some, length, get_elem?, foldl}
use iedb_agent.Base.Text.{Str, str_eq}
use iedb_agent.Buffer
use iedb_agent.Buffer.{Buffer}
use iedb_agent.Buffer.Schema.{
  FieldValue, FieldType, TableSchema, field_type, position, ensure_field, ensure_tag_key,
}
use iedb_agent.Buffer.Chunk
use iedb_agent.Buffer.Chunk.{Row, Chunk, index_tags}
use iedb_agent.Buffer.Table
use iedb_agent.Buffer.Table.{Table}
use iedb_agent.Wal.{WriteBatch, WalOp, write, noop}

unfoldable pub register_tags : List Str → TableSchema → TableSchema
unfolding ensure_tag_key
register_tags tag_keys schema = foldl (λ s key. (ensure_tag_key key s).0) schema tag_keys

abbrev type_at : Option (Option FieldValue) → Option FieldType
type_at (some (some fv)) = some (field_type fv)
type_at _ = none

-- `find_map` over the rows: the type of the first value in the column.
unfoldable pub column_type : ℕ → List Row → Option FieldType
unfolding field_type
column_type field_idx [] = none
column_type field_idx (row ∷ rows) = elim (type_at (get_elem? row.field_values field_idx)) [
  | some ft ↦ some ft
  | none ↦ column_type field_idx rows
]

abbrev pub index_or_zero : Option ℕ → ℕ
index_or_zero none = 0
index_or_zero (some i) = i

unfoldable pub register_field : WriteBatch → Str → TableSchema → TableSchema
unfolding column_type position ensure_field
register_field batch field_name schema =
    let field_idx = index_or_zero (position (λ n. str_eq n field_name) batch.field_names) in
    elim (column_type field_idx batch.rows) [
      | some ft ↦ (ensure_field field_name ft schema).0
      | none ↦ schema
    ]

unfoldable pub register_fields : WriteBatch → TableSchema → TableSchema
unfolding register_field
register_fields batch schema =
    foldl (λ s field_name. register_field batch field_name s) schema batch.field_names

-- One row: `insert`, then its index entries at `base_idx + row_idx`.
unfoldable pub insert_row : List Str → ℕ → ℕ → Row → Chunk → Chunk
unfolding Chunk.insert index_tags
insert_row tag_keys wal_seq at row c =
    let c' = Chunk.insert row wal_seq c in
    record c' { tag_index = index_tags tag_keys 0 row.tag_values at c'.tag_index }

-- The loop over the rows, `row_idx` the index of the first of them.
unfoldable pub insert_rows : List Str → ℕ → ℕ → ℕ → List Row → Chunk → Chunk
unfolding insert_row
insert_rows tag_keys wal_seq base_idx row_idx [] c = c
insert_rows tag_keys wal_seq base_idx row_idx (row ∷ rows) c =
    insert_rows tag_keys wal_seq base_idx (suc row_idx) rows
      (insert_row tag_keys wal_seq (base_idx + row_idx) row c)

unfoldable pub apply_to_table : WriteBatch → ℕ → Table → Table
unfolding register_tags register_fields insert_rows Table.get_or_create_chunk
apply_to_table batch wal_seq table =
    let schema = register_fields batch (register_tags batch.tag_keys table.schema) in
    Table.get_or_create_chunk batch.chunk_time
      (λ c. insert_rows schema.tag_keys wal_seq (length c.rows) 0 batch.rows c)
      (record table { schema = schema })

unfoldable pub apply_write_batch : Buffer → WriteBatch → ℕ → Buffer
unfolding apply_to_table Buffer.get_or_create_table
apply_write_batch buffer batch wal_seq =
    Buffer.get_or_create_table batch.db_name batch.table_name (apply_to_table batch wal_seq) buffer

-- One operation of a WAL file.
unfoldable pub apply_op : ℕ → Buffer → WalOp → Buffer
unfolding apply_write_batch
apply_op wal_seq buffer (write batch) = apply_write_batch buffer batch wal_seq
apply_op wal_seq buffer noop = buffer

unfoldable pub apply_ops : ℕ → List WalOp → Buffer → Buffer
unfolding apply_op
apply_ops wal_seq ops buffer = foldl (apply_op wal_seq) buffer ops
