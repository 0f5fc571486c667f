-- ===== src/Flush/Parquet/Types.antt =====
-- flush/parquet.rs: the physical types and the heights of the columns.
use iedb_agent.Base.{
  ℕ, suc, ◌≡◌, refl, subst, ◌∙◌, List, [], ◌∷◌, ◌++◌, map, arith, length, get_elem?, All,
}
use iedb_agent.Base.Int.{pos, quot}
use iedb_agent.Base.Text.{Str}
use iedb_agent.Buffer.Schema.{FieldType, FieldDef, TableSchema}
use iedb_agent.Buffer.Chunk.{Row}
use iedb_agent.Flush.Parquet.{
  Cell, tag_cell, int_cell, double_cell, bool_cell, string_cell, Column, AnyColumn, times, ints,
  doubles, bools, strings, ParquetResult, ok, err, map_ok, cons_ok, fill_column, time_column,
  tag_column, field_column, tag_columns, field_columns, columns_of,
}
use iedb_agent.Flush.Parquet.Columns.{Filled, fill_column-Filled}

-- The physical types of Parquet that the message type of a file declares.
pub data Physical : Type 0 where
  int64 double boolean byte_array : Physical

abbrev pub declared : FieldType → Physical
declared FieldType.i64 = int64
declared FieldType.u64 = int64
declared FieldType.f64 = double
declared FieldType.bool = boolean
declared FieldType.string = byte_array

-- Time, then the tags, then the fields.
abbrev pub declared_types : TableSchema → List Physical
declared_types schema =
    int64 ∷ map (λ (key : Str). byte_array) schema.tag_keys
    ++ map (λ (fdef : FieldDef). declared fdef.value_type) schema.field_defs

abbrev pub physical : AnyColumn → Physical
physical (times vals) = int64
physical (ints c) = int64
physical (doubles c) = double
physical (bools c) = boolean
physical (strings c) = byte_array

-- For how many rows a column has a value or a null.
abbrev pub height : AnyColumn → ℕ
height (times vals) = length vals
height (ints c) = length c.def_levels
height (doubles c) = length c.def_levels
height (bools c) = length c.def_levels
height (strings c) = length c.def_levels

abbrev HasTypes : ℕ → List Physical → ParquetResult (List AnyColumn) → Type 0
HasTypes rows types (err e) = Unit
HasTypes rows types (ok columns) =
    (map physical columns ≡ types) × All (λ c. height c ≡ rows) columns

abbrev HasType : ℕ → Physical → ParquetResult AnyColumn → Type 0
HasType rows type (err e) = Unit
HasType rows type (ok column) = (physical column ≡ type) × (height column ≡ rows)

cons_ok-HasTypes :
    (rows : ℕ) (type : Physical) (types : List Physical) (r : ParquetResult AnyColumn)
    (rest : ParquetResult (List AnyColumn))
    → HasType rows type r
    → HasTypes rows types rest
    → HasTypes rows (type ∷ types) (cons_ok r rest)
cons_ok-HasTypes rows type types (err e) rest h k = tt
cons_ok-HasTypes rows type types (ok c) (err e) h k = tt
cons_ok-HasTypes rows type types (ok c) (ok cs) h k = (rw (h.0, k.0) refl, (h.1, k.1))

Filled-HasType :
    {A : Type 0} (make : Column A → AnyColumn) (type : Physical) (cell : Row → Cell A)
    (rows : List Row) (r : ParquetResult (Column A))
    → ((c : Column A) → (physical (make c) ≡ type) × (height (make c) ≡ length c.def_levels))
    → Filled cell rows r
    → HasType (length rows) type (map_ok make r)
Filled-HasType make type cell rows (err e) h f = tt
Filled-HasType make type cell rows (ok c) h f = ((h c).0, (h c).1 ∙ f.1)

length-times :
    (rows : List Row) → length (map (λ (r : Row). quot r.time (pos 1000)) rows) ≡ length rows
length-times [] = refl
length-times (r ∷ rows) = omega (arith, length-times rows)

module _ (rows : List Row) where
  tag_column-HasType : (i : ℕ) → HasType (length rows) byte_array (tag_column i rows)
  unfolding tag_column
  tag_column-HasType i =
      let cell = λ (r : Row). tag_cell (get_elem? r.tag_values i) in
      Filled-HasType strings byte_array cell rows (fill_column cell rows) (λ c. (refl, refl))
        (fill_column-Filled cell rows)

  field_column-HasType :
      (type : FieldType) (i : ℕ) → HasType (length rows) (declared type) (field_column type i rows)
  unfolding field_column
  field_column-HasType FieldType.i64 i =
      let cell = λ (r : Row). int_cell (get_elem? r.field_values i) in
      Filled-HasType ints int64 cell rows (fill_column cell rows) (λ c. (refl, refl))
        (fill_column-Filled cell rows)
  field_column-HasType FieldType.u64 i =
      let cell = λ (r : Row). int_cell (get_elem? r.field_values i) in
      Filled-HasType ints int64 cell rows (fill_column cell rows) (λ c. (refl, refl))
        (fill_column-Filled cell rows)
  field_column-HasType FieldType.f64 i =
      let cell = λ (r : Row). double_cell (get_elem? r.field_values i) in
      Filled-HasType doubles double cell rows (fill_column cell rows) (λ c. (refl, refl))
        (fill_column-Filled cell rows)
  field_column-HasType FieldType.bool i =
      let cell = λ (r : Row). bool_cell (get_elem? r.field_values i) in
      Filled-HasType bools boolean cell rows (fill_column cell rows) (λ c. (refl, refl))
        (fill_column-Filled cell rows)
  field_column-HasType FieldType.string i =
      let cell = λ (r : Row). string_cell (get_elem? r.field_values i) in
      Filled-HasType strings byte_array cell rows (fill_column cell rows) (λ c. (refl, refl))
        (fill_column-Filled cell rows)

  field_columns-HasTypes :
      (defs : List FieldDef) (i : ℕ)
      → HasTypes
          (length rows)
          (map (λ (fdef : FieldDef). declared fdef.value_type) defs)
          (field_columns defs i rows)
  unfolding field_columns
  field_columns-HasTypes [] i = (refl, tt)
  field_columns-HasTypes (fdef ∷ defs) i =
      cons_ok-HasTypes (length rows) (declared fdef.value_type) _
        (field_column fdef.value_type i rows) (field_columns defs (suc i) rows)
        (field_column-HasType fdef.value_type i) (field_columns-HasTypes defs (suc i))

  tag_columns-HasTypes :
      (keys : List Str) (i : ℕ) (types : List Physical) (rest : ParquetResult (List AnyColumn))
      → HasTypes (length rows) types rest
      → HasTypes
          (length rows)
          (map (λ (key : Str). byte_array) keys ++ types)
          (tag_columns keys i rows rest)
  unfolding tag_columns
  tag_columns-HasTypes [] i types rest h = h
  tag_columns-HasTypes (key ∷ keys) i types rest h =
      cons_ok-HasTypes (length rows) byte_array _ (tag_column i rows)
        (tag_columns keys (suc i) rows rest) (tag_column-HasType i)
        (tag_columns-HasTypes keys (suc i) types rest h)

  columns_of-HasTypes :
      (schema : TableSchema)
      → HasTypes (length rows) (declared_types schema) (columns_of schema rows)
  unfolding columns_of time_column
  columns_of-HasTypes schema =
      cons_ok-HasTypes (length rows) int64 _ (ok (time_column rows))
        (tag_columns schema.tag_keys 0 rows (field_columns schema.field_defs 0 rows))
        (refl, length-times rows)
        (tag_columns-HasTypes schema.tag_keys 0 _ (field_columns schema.field_defs 0 rows)
          (field_columns-HasTypes schema.field_defs 0))

  -- If the columns of a file can be filled, there is one for the time, for each tag key and for each
  -- field, in this order, of the physical type that the schema gives it, and each has a value or a
  -- null for every row.
  pub columns_of-declared :
      (schema : TableSchema) (columns : List AnyColumn)
      → columns_of schema rows ≡ ok columns
      → (map physical columns ≡ declared_types schema) × All (λ c. height c ≡ length rows) columns
  columns_of-declared schema columns e =
      subst (HasTypes (length rows) (declared_types schema)) e (columns_of-HasTypes schema)
