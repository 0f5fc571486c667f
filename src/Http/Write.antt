-- ===== src/Http/Write.antt =====
-- http/write.rs: `WriteHandler::handle`, from the request to the buffer.
pub mod Batches
pub mod Handler
use iedb_agent.Base.{
  ℕ, suc, ◌+◌, ◌-◌, ◌≡◌, Bool, true, false, List, [], ◌∷◌, ◌++◌, map, Option, none, some, length,
  is_empty, ltb, if◌then◌else◌,
}
use iedb_agent.Base.Int.{ℤ}
use iedb_agent.Base.Text.{Str}
use iedb_agent.Base.Dict.{Dict, update}
use iedb_agent.Buffer.Schema
use iedb_agent.Buffer.Schema.{FieldValue}
use iedb_agent.Buffer.Chunk.{Row}

-- `influxdb_line_protocol`: a value and a parsed line.
pub data LineValue : Type 0 where
  i64 : ℤ → LineValue
  u64 : ℕ → LineValue
  f64 : ℕ → LineValue
  string : Str → LineValue
  boolean : Bool → LineValue

pub record ParsedLine : Type 0 where
  pub measurement : Str
  pub tag_set : Option (List (Str × Str))
  pub field_set : List (Str × LineValue)
  pub timestamp : Option ℤ

-- The order of `String`, by code points.
unfoldable pub str_lt : Str → Str → Bool
str_lt [] [] = false
str_lt [] (b ∷ t) = true
str_lt (a ∷ s) [] = false
str_lt (a ∷ s) (b ∷ t) = if ltb a b then true else if ltb b a then false else str_lt s t

insert_pair : Str × Str → List (Str × Str) → List (Str × Str)
unfolding str_lt
insert_pair p [] = p ∷ []
insert_pair p (q ∷ qs) = if str_lt q.0 p.0 then q ∷ insert_pair p qs else p ∷ q ∷ qs

-- `sort_by` on the keys, which keeps equal keys in order.
unfoldable pub sort_pairs : List (Str × Str) → List (Str × Str)
unfolding insert_pair
sort_pairs [] = []
sort_pairs (p ∷ ps) = insert_pair p (sort_pairs ps)

abbrev tags_or_none : Option (List (Str × Str)) → List (Str × Str)
tags_or_none none = []
tags_or_none (some tags) = tags

unfoldable pub convert : LineValue → FieldValue
convert (LineValue.i64 v) = FieldValue.i64 v
convert (LineValue.f64 v) = FieldValue.f64 v
convert (LineValue.u64 v) = FieldValue.u64 v
convert (LineValue.boolean v) = FieldValue.bool v
convert (LineValue.string v) = FieldValue.string v

abbrev time_or_now : ℤ → Option ℤ → ℤ
time_or_now now_ns none = now_ns
time_or_now now_ns (some t) = t

unfoldable pub row_of : ℤ → ParsedLine → Row
unfolding sort_pairs convert
row_of now_ns line = record {
  time = time_or_now now_ns line.timestamp;
  tag_values = map (λ p. p.1) (sort_pairs (tags_or_none line.tag_set));
  field_values = map (λ p. some (convert p.1)) line.field_set;
}

unfoldable pub tag_keys_of : ParsedLine → List Str
unfolding sort_pairs
tag_keys_of line = map (λ p. p.0) (sort_pairs (tags_or_none line.tag_set))

unfoldable pub field_names_of : ParsedLine → List Str
field_names_of line = map (λ p. p.0) line.field_set

-- The lines of one table: its names and its rows.
pub record TableRows : Type 0 where
  pub field_names : List Str
  pub tag_keys : List Str
  pub rows : List Row

add_line : ℤ → ParsedLine → TableRows → TableRows
unfolding row_of tag_keys_of field_names_of
add_line now_ns line entry = record {
  field_names = if is_empty entry.field_names then field_names_of line else entry.field_names;
  tag_keys = if is_empty entry.tag_keys then tag_keys_of line else entry.tag_keys;
  rows = entry.rows ++ row_of now_ns line ∷ [];
}

-- The parsed lines, a line that does not parse being skipped; the clock is what each line finds it at.
unfoldable pub collect_lines : (ℕ → ℤ) → List (Option ParsedLine) → Dict TableRows → Dict TableRows
unfolding add_line update
collect_lines clock_ns [] tables = tables
collect_lines clock_ns (none ∷ lines) tables = collect_lines (λ n. clock_ns (suc n)) lines tables
collect_lines clock_ns (some line ∷ lines) tables =
    collect_lines (λ n. clock_ns (suc n)) lines
      (update line.measurement
        (record { field_names = field_names_of line; tag_keys = tag_keys_of line; rows = [] })
        (add_line (clock_ns 0) line) tables)
