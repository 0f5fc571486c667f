-- ===== src/Buffer/Query.antt =====
-- buffer/query.rs: the rows of a table in a range of times, of one tag value if one is given.
pub mod Scan
use iedb_agent.Base.{
  ℕ, zero, suc, ◌+◌, Bool, true, false, ◌&&◌, not, List, [], ◌∷◌, ◌++◌, Option, none, some, length,
  get_elem?, if◌then◌else◌,
}
use iedb_agent.Base.Int.{ℤ, pos, ltb_ℤ, quot}
use iedb_agent.Base.Text.{Str}
use iedb_agent.Base.Dict.{Dict, insert}
use iedb_agent.Buffer.{Buffer, get_table}
use iedb_agent.Buffer.Schema.{FieldValue, FieldDef, TableSchema}
use iedb_agent.Buffer.Chunk.{Row, Chunk}
use iedb_agent.Buffer.Table.{Table}
use iedb_agent.Buffer.Tags.{rows_with}

-- `serde_json::Value`, with `json!` of a field's value and `Null`.
pub record Json : Type 1 where
  pub Value : Type 0
  pub json : FieldValue → Value
  pub null : Value

pub record QueryRow (J : Json) : Type 0 where
  pub time : ℤ
  pub tags : Dict Str
  pub fields : Dict (J.Value)

abbrev pub join {ℓ} : {A : Type ℓ} → Option (List A) → Option (List A) → Option (List A)
join (some a) (some b) = some (a ++ b)
join (some a) none = none
join none b = none

-- `for x in xs { … }` over a body that pushes results or panics (`none`).
unfoldable pub concat_each {ℓ κ} :
    {A : Type ℓ} {B : Type κ} → (A → Option (List B)) → List A → Option (List B)
concat_each f [] = some []
concat_each f (x ∷ xs) = join (f x) (concat_each f xs)

abbrev pub not_before : Option ℤ → Row → Bool
not_before none row = true
not_before (some start) row = not (ltb_ℤ row.time start)

abbrev pub not_after : Option ℤ → Row → Bool
not_after none row = true
not_after (some end) row = not (ltb_ℤ end row.time)

abbrev pub in_range : Option ℤ → Option ℤ → Row → Bool
in_range start_ns end_ns row = not_before start_ns row && not_after end_ns row

-- `(0..n).collect()`, from `i`
unfoldable pub indices : ℕ → ℕ → List ℕ
indices zero i = []
indices (suc n) i = i ∷ indices n (suc i)

unfoldable pub candidates : Option Str → Option Str → Chunk → List ℕ
unfolding indices rows_with
candidates (some key) (some val) c = rows_with key val c.tag_index
candidates (some key) none c = indices (length c.rows) 0
candidates none tag_value c = indices (length c.rows) 0

insert_some : Str → Option Str → Dict Str → Dict Str
unfolding insert
insert_some key none tags = tags
insert_some key (some val) tags = insert key val tags

tags_from : List Str → ℕ → List Str → Dict Str → Dict Str
unfolding insert_some
tags_from [] i tag_values tags = tags
tags_from (key ∷ keys) i tag_values tags =
    tags_from keys (suc i) tag_values (insert_some key (get_elem? tag_values i) tags)

module _ (J : Json) where
  abbrev pub json_or_null : Option (Option FieldValue) → J.Value
  json_or_null (some (some val)) = J.json val
  json_or_null (some none) = J.null
  json_or_null none = J.null

  fields_from : List FieldDef → ℕ → List (Option FieldValue) → Dict (J.Value) → Dict (J.Value)
  unfolding insert
  fields_from [] i field_values fields = fields
  fields_from (fdef ∷ defs) i field_values fields =
      fields_from defs (suc i) field_values
        (insert fdef.name (json_or_null (get_elem? field_values i)) fields)

  -- Nanoseconds become microseconds.
  unfoldable pub query_row : TableSchema → Row → QueryRow J
  unfolding tags_from fields_from quot
  query_row schema row = record {
    time = quot row.time (pos 1000);
    tags = tags_from schema.tag_keys 0 row.tag_values [];
    fields = fields_from schema.field_defs 0 row.field_values [];
  }

  module _ (schema : TableSchema) (start_ns end_ns : Option ℤ) where
    -- `chunk.rows[idx]` panics out of range.
    unfoldable pub at_row : Option Row → Option (List (QueryRow J))
    unfolding query_row
    at_row none = none
    at_row (some row) =
        some (if in_range start_ns end_ns row then query_row schema row ∷ [] else [])

    unfoldable pub query_chunk : Option Str → Option Str → Chunk → Option (List (QueryRow J))
    unfolding at_row concat_each candidates
    query_chunk tag_key tag_value c =
        concat_each (λ idx. at_row (get_elem? c.rows idx)) (candidates tag_key tag_value c)

  unfoldable pub query_table :
      Table → Option ℤ → Option ℤ → Option Str → Option Str → Option (List (QueryRow J))
  unfolding query_chunk concat_each
  query_table table start_ns end_ns tag_key tag_value =
      concat_each (query_chunk table.schema start_ns end_ns tag_key tag_value) table.chunks

  abbrev pub query_found :
      Option ℤ
      → Option ℤ
      → Option Str
      → Option Str
      → Option Table
      → Option (Option (List (QueryRow J)))
  query_found start_ns end_ns tag_key tag_value none = some none
  query_found start_ns end_ns tag_key tag_value (some table) =
      elim (query_table table start_ns end_ns tag_key tag_value) [
        | none ↦ none
        | some rows ↦ some (some rows)
      ]

  -- `Buffer::query`: a panic is `none`, and a table that is not there is `some none`.
  unfoldable pub query :
      Buffer
      → Str
      → Str
      → Option ℤ
      → Option ℤ
      → Option Str
      → Option Str
      → Option (Option (List (QueryRow J)))
  unfolding query_table get_table
  query buffer db table_name start_ns end_ns tag_key tag_value =
      query_found start_ns end_ns tag_key tag_value (get_table db table_name buffer)
