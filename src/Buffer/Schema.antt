-- ===== src/Buffer/Schema.antt =====
-- buffer/chunk.rs: field values, their types, and the schema of a table.
use iedb_agent.Base.{
  ℕ, suc, ◌-◌, Bool, List, [], ◌∷◌, ◌++◌, Option, none, some, length, if◌then◌else◌,
}
use iedb_agent.Base.Int.{ℤ}
use iedb_agent.Base.Text.{Str, str_eq}

-- An `f64` is only stored and compared by nobody: it is its 64 bits.
pub data FieldValue : Type 0 where
  i64 : ℤ → FieldValue
  f64 : ℕ → FieldValue
  u64 : ℕ → FieldValue
  bool : Bool → FieldValue
  string : Str → FieldValue

pub data FieldType : Type 0 where
  i64 f64 u64 bool string : FieldType

unfoldable pub field_type : FieldValue → FieldType
field_type (FieldValue.i64 _) = FieldType.i64
field_type (FieldValue.f64 _) = FieldType.f64
field_type (FieldValue.u64 _) = FieldType.u64
field_type (FieldValue.bool _) = FieldType.bool
field_type (FieldValue.string _) = FieldType.string

pub record FieldDef : Type 0 where
  pub name : Str
  pub value_type : FieldType

pub record TableSchema : Type 0 where
  pub tag_keys : List Str
  pub field_defs : List FieldDef

abbrev pub new : TableSchema
new = record { tag_keys = []; field_defs = [] }

-- `iter().position`
unfoldable pub position {ℓ} : {A : Type ℓ} → (A → Bool) → List A → Option ℕ
position p [] = none
position p (x ∷ xs) =
    let rest = position p xs in
    if p x then some 0 else elim rest [ none ↦ none | some i ↦ some (suc i) ]

-- The schema afterwards, and the index of the field.
unfoldable pub ensure_field : Str → FieldType → TableSchema → TableSchema × ℕ
unfolding position
ensure_field name value_type schema = elim (position (λ f. str_eq f.name name) schema.field_defs) [
  | some pos ↦ (schema, pos)
  | none ↦
      let field_defs = schema.field_defs ++ record { name = name; value_type = value_type } ∷ [] in
      (record schema { field_defs = field_defs }, length field_defs - 1)
]

-- The schema afterwards, and the index of the tag key.
unfoldable pub ensure_tag_key : Str → TableSchema → TableSchema × ℕ
unfolding position
ensure_tag_key key schema = elim (position (λ k. str_eq k key) schema.tag_keys) [
  | some pos ↦ (schema, pos)
  | none ↦
      let tag_keys = schema.tag_keys ++ key ∷ [] in
      (record schema { tag_keys = tag_keys }, length tag_keys - 1)
]
