-- ===== src/Wal/Valid.antt =====
-- wal/wal_core.rs: the invariant of a table under batches.
use iedb_agent.Base.{
  ℕ, ◌≡◌, refl, List, [], ◌++◌, arith, length, All, All-append, All-map, length-append,
}
use iedb_agent.Base.Text.{Str}
use iedb_agent.Base.Dict.{lookup}
use iedb_agent.Buffer.Schema.{TableSchema}
use iedb_agent.Buffer.Chunk
use iedb_agent.Buffer.Chunk.{Row, Chunk}
use iedb_agent.Buffer.Chunk.Bounds.{IsBounded}
use iedb_agent.Buffer.Table
use iedb_agent.Buffer.Table.{Table}
use iedb_agent.Buffer.Table.Order.{
  IsSorted, place, place-IsSorted, place-All, chunks-get_or_create_chunk,
}
use iedb_agent.Buffer.Tags.{
  IsNodup, IsExact, IsExact-grow, FitsKeys, IsWithin, rows_with, positions,
}
use iedb_agent.Wal.{WriteBatch}
use iedb_agent.Wal.Apply.{register_tags, register_fields, insert_rows, apply_to_table}
use iedb_agent.Wal.Rows.{
  rows-insert_rows, chunk_time-insert_rows, insert_rows-IsBounded, insert_rows-IsExact,
  insert_rows-IsWithin,
}
use iedb_agent.Wal.Growth.{Grows, register_tags-Grows, tag_keys-register_fields}

-- A chunk whose bounds hold and whose index agrees with its rows.
pub record IsValidChunk (keys : List Str) (c : Chunk) : Type 0 where
  pub bounded : IsBounded c
  pub exact : IsExact keys c.rows c.tag_index
  pub fits : All (FitsKeys keys) c.rows

pub record IsValidTable (t : Table) : Type 0 where
  pub sorted : IsSorted t.chunks
  pub nodup : IsNodup t.schema.tag_keys
  pub chunks : All (IsValidChunk t.schema.tag_keys) t.chunks

-- What holds of every table, whatever was written: the search finds the chunks, and the index does
-- not point past the rows.
pub record IsSafeTable (t : Table) : Type 0 where
  pub sorted : IsSorted t.chunks
  pub within : All (λ (c : Chunk). IsWithin c.rows c.tag_index) t.chunks
  pub bounded : All IsBounded t.chunks

abbrev pub schema_after : WriteBatch → Table → TableSchema
schema_after batch t = register_fields batch (register_tags batch.tag_keys t.schema)

tag_keys_after-Grows :
    (batch : WriteBatch) (t : Table) → Grows t.schema.tag_keys (schema_after batch t).tag_keys
tag_keys_after-Grows batch t =
    rw (tag_keys-register_fields batch (register_tags batch.tag_keys t.schema))
      (register_tags-Grows batch.tag_keys t.schema)

pub schema-apply_to_table :
    (batch : WriteBatch) (seq : ℕ) (t : Table)
    → (apply_to_table batch seq t).schema ≡ schema_after batch t
unfolding apply_to_table Table.get_or_create_chunk
schema-apply_to_table batch seq t = refl

-- The change of the batch's chunk.
abbrev pub change : WriteBatch → ℕ → Table → Chunk → Chunk
change batch seq t c =
    insert_rows (schema_after batch t).tag_keys seq (length c.rows) 0 batch.rows c

pub chunks-apply_to_table :
    (batch : WriteBatch) (seq : ℕ) (t : Table)
    → (apply_to_table batch seq t).chunks ≡ place batch.chunk_time (change batch seq t) t.chunks
unfolding apply_to_table
chunks-apply_to_table batch seq t =
    chunks-get_or_create_chunk batch.chunk_time (change batch seq t)
      (record t { schema = schema_after batch t })

-- The rows of the batch have no more tag values than the table has tag keys once it has
-- registered the batch's.
abbrev pub Fits : WriteBatch → Table → Type 0
Fits batch t = All (FitsKeys (schema_after batch t).tag_keys) batch.rows

fits_grow :
    (keys more : List Str) (rows : List Row)
    → All (FitsKeys keys) rows
    → All (FitsKeys (keys ++ more)) rows
fits_grow keys more =
    All-map (FitsKeys keys) (FitsKeys (keys ++ more)) λ r h. omega (arith, length-append keys more)

IsValidChunk-grow :
    (keys more : List Str) (c : Chunk) → IsValidChunk keys c → IsValidChunk (keys ++ more) c
IsValidChunk-grow keys more c h = record {
  bounded = h.bounded;
  exact = IsExact-grow keys more c.rows c.tag_index h.fits h.exact;
  fits = fits_grow keys more c.rows h.fits;
}

change-IsValidChunk :
    (keys : List Str) (seq : ℕ) (rows : List Row) (c : Chunk)
    → IsNodup keys
    → All (FitsKeys keys) rows
    → IsValidChunk keys c
    → IsValidChunk keys (insert_rows keys seq (length c.rows) 0 rows c)
change-IsValidChunk keys seq rows c nodup fits h = record {
  bounded = insert_rows-IsBounded keys seq (length c.rows) 0 rows c h.bounded;
  exact = insert_rows-IsExact keys seq (length c.rows) 0 rows c nodup (omega arith) h.exact;
  fits =
      rw (rows-insert_rows keys seq (length c.rows) 0 rows c)
        (All-append (FitsKeys keys) c.rows rows h.fits fits);
}

new-IsExact : (keys : List Str) → IsExact keys [] []
unfolding rows_with lookup positions
new-IsExact keys = record { lists = λ k v. refl }

new-IsWithin : IsWithin [] []
unfolding rows_with lookup
new-IsWithin = record { in_range = λ k v. tt }

-- Applying a batch whose rows have no more tag values than the table then has tag keys keeps the
-- chunks sorted, the tag keys distinct, the bounds true and the tag indexes exact.
pub apply_to_table-IsValidTable :
    (batch : WriteBatch) (seq : ℕ) (t : Table)
    → Fits batch t
    → IsValidTable t
    → IsValidTable (apply_to_table batch seq t)
apply_to_table-IsValidTable batch seq t fits h =
    let keys = (schema_after batch t).tag_keys in
    let grows = tag_keys_after-Grows batch t in
    let old : All (IsValidChunk keys) t.chunks =
      rw grows.behind
        (All-map _ _ (IsValidChunk-grow t.schema.tag_keys grows.added) t.chunks h.chunks) in
    let fresh : IsValidChunk keys (Chunk.new batch.chunk_time) = record {
      bounded = tt;
      exact = new-IsExact keys;
      fits = tt;
    } in
    let step =
      λ (c : Chunk). change-IsValidChunk keys seq batch.rows c (grows.nodup h.nodup) fits in
    record {
      sorted = rw (chunks-apply_to_table batch seq t) (
          place-IsSorted batch.chunk_time (change batch seq t)
            (λ c. chunk_time-insert_rows keys seq (length c.rows) 0 batch.rows c) t.chunks
            h.sorted);
      nodup = rw (schema-apply_to_table batch seq t) (grows.nodup h.nodup);
      chunks =
          rw (chunks-apply_to_table batch seq t, schema-apply_to_table batch seq t)
            (place-All (IsValidChunk keys) batch.chunk_time (change batch seq t)
              (step (Chunk.new batch.chunk_time) fresh) step t.chunks old);
    }

pub apply_to_table-IsSafeTable :
    (batch : WriteBatch) (seq : ℕ) (t : Table)
    → IsSafeTable t
    → IsSafeTable (apply_to_table batch seq t)
apply_to_table-IsSafeTable batch seq t h =
    let keys = (schema_after batch t).tag_keys in
    let new = Chunk.new batch.chunk_time in
    let within =
      λ (c : Chunk). insert_rows-IsWithin keys seq (length c.rows) 0 batch.rows c (omega arith) in
    let bounded = λ (c : Chunk). insert_rows-IsBounded keys seq (length c.rows) 0 batch.rows c in
    record {
      sorted = rw (chunks-apply_to_table batch seq t) (
          place-IsSorted batch.chunk_time (change batch seq t)
            (λ c. chunk_time-insert_rows keys seq (length c.rows) 0 batch.rows c) t.chunks
            h.sorted);
      within = rw (chunks-apply_to_table batch seq t) (
          place-All (λ (c : Chunk). IsWithin c.rows c.tag_index) batch.chunk_time
            (change batch seq t) (within new new-IsWithin) within t.chunks h.within);
      bounded = rw (chunks-apply_to_table batch seq t) (
          place-All IsBounded batch.chunk_time (change batch seq t) (bounded new tt) bounded
            t.chunks h.bounded);
    }
