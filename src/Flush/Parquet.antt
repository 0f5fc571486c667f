-- ===== src/Flush/Parquet.antt =====
-- flush/parquet.rs: the rows of some chunks as the columns of one Parquet file.
pub mod Columns
pub mod Merge
pub mod Types
use iedb_agent.Base.{
  ℕ, suc, ◌+◌, ◌≡◌, Bool, true, false, ◌&&◌, List, [], ◌∷◌, ◌++◌, map, Option, none, some,
  get_elem?, is_empty, leb, ◌==◌, if◌then◌else◌,
}
use iedb_agent.Base.Int.{ℤ, pos, quot, ltb_ℤ, eqb_ℤ}
use iedb_agent.Base.Text.{Str, Bytes, codes, str_eq}
use iedb_agent.Buffer.Schema.{FieldValue, FieldType, FieldDef, TableSchema}
use iedb_agent.Buffer.Chunk.{Row, Chunk}
use iedb_agent.Buffer.Table.{Table}

unfoldable pub sanitize_column_name : Str → Str
sanitize_column_name = map (λ c. if c == b'-' then b'_' else if c == b' ' then b'_' else c)

abbrev pub pq_type : FieldType → Str
pq_type FieldType.i64 = codes "INT64"
pq_type FieldType.f64 = codes "DOUBLE"
pq_type FieldType.u64 = codes "INT64"
pq_type FieldType.bool = codes "BOOLEAN"
pq_type FieldType.string = codes "BINARY (STRING)"

tag_fields : List Str → List Str
unfolding sanitize_column_name
tag_fields =
    map (λ key. codes "optional binary " ++ (sanitize_column_name key ++ codes " (STRING);"))

field_fields : List FieldDef → List Str
unfolding sanitize_column_name
field_fields = map (λ fdef.
    codes "optional "
    ++ (pq_type fdef.value_type ++ (codes " " ++ (sanitize_column_name fdef.name ++ codes ";"))))

join_from : Str → List Str → Str
join_from s [] = s
join_from s (t ∷ ts) = s ++ (codes " " ++ join_from t ts)

unfoldable pub message_type : TableSchema → Str
unfolding tag_fields field_fields join_from
message_type schema =
    codes "message schema { "
    ++ (join_from (codes "required int64 time;")
          (tag_fields schema.tag_keys ++ field_fields schema.field_defs)
        ++ codes " }")

unfoldable pub all_rows_of : List Chunk → List Row
all_rows_of [] = []
all_rows_of (c ∷ cs) = c.rows ++ all_rows_of cs

unfoldable pub insert_by_time : Row → List Row → List Row
insert_by_time r [] = r ∷ []
insert_by_time r (q ∷ qs) = if ltb_ℤ q.time r.time then q ∷ insert_by_time r qs else r ∷ q ∷ qs

-- `sort_by_key`, which keeps rows of one time in order.
unfoldable pub sort_by_time : List Row → List Row
unfolding insert_by_time
sort_by_time [] = []
sort_by_time (r ∷ rs) = insert_by_time r (sort_by_time rs)

unfoldable pub strs_eq : List Str → List Str → Bool
unfolding str_eq
strs_eq [] [] = true
strs_eq (s ∷ ss) (t ∷ ts) = if str_eq s t then strs_eq ss ts else false
strs_eq _ _ = false

-- `a.time == b.time && a.tag_values == b.tag_values`
unfoldable pub same_point : Row → Row → Bool
unfolding strs_eq
same_point a b = eqb_ℤ a.time b.time && strs_eq a.tag_values b.tag_values

-- `dedup_by` behind the last row that was kept.
unfoldable pub dedup_after : Row → List Row → List Row
unfolding same_point
dedup_after b [] = []
dedup_after b (a ∷ rows) =
    let same = dedup_after b rows in
    let other = a ∷ dedup_after a rows in if same_point a b then same else other

unfoldable pub dedup : List Row → List Row
unfolding dedup_after
dedup [] = []
dedup (r ∷ rows) = r ∷ dedup_after r rows

unfoldable pub merged_rows : List Chunk → List Row
unfolding all_rows_of sort_by_time dedup
merged_rows chunks = dedup (sort_by_time (all_rows_of chunks))

-- What one row gives to a column: a value, nothing, or an error.
pub data Cell (A : Type 0) : Type 0 where
  value : A → Cell A
  empty : Cell A
  out_of_range : ℕ → Cell A

-- `vals` and `def_levels` as they are handed to `write_batch`.
pub record Column (A : Type 0) : Type 0 where
  pub vals : List A
  pub def_levels : List ℕ

pub data ParquetError : Type 0 where
  no_chunks : ParquetError
  schema_error : Str → ParquetError
  u64_exceeds_i64 : ℕ → ParquetError
  writer_error : Str → ParquetError

pub data ParquetResult (A : Type 0) : Type 0 where
  ok : A → ParquetResult A
  err : ParquetError → ParquetResult A

abbrev pub push_cell : {A : Type 0} → Cell A → ParquetResult (Column A) → ParquetResult (Column A)
push_cell (out_of_range v) rest = err (u64_exceeds_i64 v)
push_cell (value a) (err e) = err e
push_cell (value a) (ok c) = ok (record { vals = a ∷ c.vals; def_levels = 1 ∷ c.def_levels })
push_cell empty (err e) = err e
push_cell empty (ok c) = ok (record { vals = c.vals; def_levels = 0 ∷ c.def_levels })

-- The loop over the rows that fills one column.
unfoldable pub fill_column : {A : Type 0} → (Row → Cell A) → List Row → ParquetResult (Column A)
fill_column cell [] = ok (record { vals = []; def_levels = [] })
fill_column cell (row ∷ rows) = push_cell (cell row) (fill_column cell rows)

-- A missing or empty tag value is null.
abbrev pub tag_cell : Option Str → Cell Str
tag_cell none = empty
tag_cell (some []) = empty
tag_cell (some (c ∷ s)) = value (c ∷ s)

abbrev pub int_cell : Option (Option FieldValue) → Cell ℤ
int_cell (some (some (FieldValue.i64 v))) = value v
int_cell (some (some (FieldValue.u64 v))) =
    if leb v 9223372036854775807 then value (pos v) else out_of_range v
int_cell _ = empty

abbrev pub double_cell : Option (Option FieldValue) → Cell ℕ
double_cell (some (some (FieldValue.f64 v))) = value v
double_cell _ = empty

abbrev pub bool_cell : Option (Option FieldValue) → Cell Bool
bool_cell (some (some (FieldValue.bool v))) = value v
bool_cell _ = empty

abbrev pub string_cell : Option (Option FieldValue) → Cell Str
string_cell (some (some (FieldValue.string v))) = value v
string_cell _ = empty

pub data AnyColumn : Type 0 where
  times : List ℤ → AnyColumn
  ints : Column ℤ → AnyColumn
  doubles : Column ℕ → AnyColumn
  bools : Column Bool → AnyColumn
  strings : Column Str → AnyColumn

abbrev pub map_ok : {A B : Type 0} → (A → B) → ParquetResult A → ParquetResult B
map_ok f (ok a) = ok (f a)
map_ok f (err e) = err e

-- Column 0: nanoseconds become microseconds.
unfoldable pub time_column : List Row → AnyColumn
unfolding quot
time_column rows = times (map (λ r. quot r.time (pos 1000)) rows)

unfoldable pub tag_column : ℕ → List Row → ParquetResult AnyColumn
unfolding fill_column
tag_column tag_idx rows =
    map_ok strings (fill_column (λ r. tag_cell (get_elem? r.tag_values tag_idx)) rows)

unfoldable pub field_column : FieldType → ℕ → List Row → ParquetResult AnyColumn
unfolding fill_column
field_column FieldType.i64 i rows =
    map_ok ints (fill_column (λ r. int_cell (get_elem? r.field_values i)) rows)
field_column FieldType.u64 i rows =
    map_ok ints (fill_column (λ r. int_cell (get_elem? r.field_values i)) rows)
field_column FieldType.f64 i rows =
    map_ok doubles (fill_column (λ r. double_cell (get_elem? r.field_values i)) rows)
field_column FieldType.bool i rows =
    map_ok bools (fill_column (λ r. bool_cell (get_elem? r.field_values i)) rows)
field_column FieldType.string i rows =
    map_ok strings (fill_column (λ r. string_cell (get_elem? r.field_values i)) rows)

abbrev pub cons_ok :
    ParquetResult AnyColumn → ParquetResult (List AnyColumn) → ParquetResult (List AnyColumn)
cons_ok (err e) rest = err e
cons_ok (ok c) (err e) = err e
cons_ok (ok c) (ok cs) = ok (c ∷ cs)

unfoldable pub tag_columns :
    List Str → ℕ → List Row → ParquetResult (List AnyColumn) → ParquetResult (List AnyColumn)
unfolding tag_column
tag_columns [] i rows rest = rest
tag_columns (key ∷ keys) i rows rest =
    cons_ok (tag_column i rows) (tag_columns keys (suc i) rows rest)

unfoldable pub field_columns : List FieldDef → ℕ → List Row → ParquetResult (List AnyColumn)
unfolding field_column
field_columns [] i rows = ok []
field_columns (fdef ∷ defs) i rows =
    cons_ok (field_column fdef.value_type i rows) (field_columns defs (suc i) rows)

unfoldable pub columns_of : TableSchema → List Row → ParquetResult (List AnyColumn)
unfolding time_column tag_columns field_columns
columns_of schema rows =
    cons_ok (ok (time_column rows))
      (tag_columns schema.tag_keys 0 rows (field_columns schema.field_defs 0 rows))

-- The `parquet` crate: a schema text is accepted or not, and columns are written or not.
pub record Writer : Type 0 where
  pub parse_message_type : Str → Option Str
  pub write : Str → List AnyColumn → ParquetResult Bytes

write_columns : Writer → Str → ParquetResult (List AnyColumn) → ParquetResult Bytes
write_columns w message (err e) = err e
write_columns w message (ok columns) = w.write message columns

unfoldable pub flush_chunks_to_parquet : Writer → Table → List Chunk → ParquetResult Bytes
unfolding write_columns columns_of merged_rows message_type
flush_chunks_to_parquet w table chunks =
    if is_empty chunks
    then err no_chunks
    else elim (w.parse_message_type (message_type table.schema)) [
      | some e ↦ err (schema_error e)
      | none ↦
          write_columns w (message_type table.schema) (columns_of table.schema (merged_rows chunks))
    ]
