-- ===== src/Wal/Growth.antt =====
-- wal/wal_core.rs: how a schema grows by a batch.
use iedb_agent.Base.{
  ℕ, suc, ◌≡◌, refl, sym, ◌∙◌, Bool, false, List, [], ◌∷◌, ◌++◌, Option, none, some, arith, any_of,
  foldl, append-nil, append_assoc, Option-cases, inl, inr,
}
use iedb_agent.Base.Text.{Str, str_eq, str_eq_iff}
use iedb_agent.Buffer.Schema.{FieldType, TableSchema, position, ensure_tag_key, ensure_field}
use iedb_agent.Buffer.Tags.{IsNodup}
use iedb_agent.Wal.{WriteBatch}
use iedb_agent.Wal.Apply.{
  register_tags, register_fields, register_field, column_type, index_or_zero,
}

abbrev pub next : Option ℕ → Option ℕ
next none = none
next (some i) = some (suc i)

any_of-position {ℓ} :
    {A : Type ℓ} (p : A → Bool) (xs : List A) → position p xs ≡ none → any_of p xs ≡ false
unfolding position
any_of-position p [] h = refl
any_of-position p (x ∷ xs) h = ground (arith, any_of-position p xs)

IsNodup-append :
    (k : Str) (ks : List Str)
    → any_of (λ j. str_eq j k) ks ≡ false
    → IsNodup ks
    → IsNodup (ks ++ k ∷ [])
IsNodup-append k [] h n = (refl, tt)
IsNodup-append k (j ∷ ks) h n = (
  fresh ks n.0 (ground (arith, str_eq_iff j k, str_eq_iff k j)),
  IsNodup-append k ks (ground arith) n.1,
)
  where
    fresh :
        (is : List Str)
        → any_of (λ i. str_eq i j) is ≡ false
        → str_eq k j ≡ false
        → any_of (λ i. str_eq i j) (is ++ k ∷ []) ≡ false
    fresh [] a b = ground arith
    fresh (i ∷ is) a b = ground (arith, fresh is)

-- What a run of registrations does to the tag keys.
pub record Grows (before after : List Str) : Type 0 where
  pub added : List Str
  pub behind : after ≡ before ++ added
  pub nodup : IsNodup before → IsNodup after

Grows-refl : (ks : List Str) → Grows ks ks
Grows-refl ks = record { added = []; behind = sym (append-nil ks); nodup = λ n. n }

Grows-trans : (ks ls ms : List Str) → Grows ks ls → Grows ls ms → Grows ks ms
Grows-trans ks ls ms g h = record {
  added = g.added ++ h.added;
  behind = h.behind ∙ rw g.behind (append_assoc ks g.added h.added);
  nodup = λ n. h.nodup (g.nodup n);
}

ensure_tag_key-Grows :
    (key : Str) (s : TableSchema) → Grows s.tag_keys (ensure_tag_key key s).0.tag_keys
unfolding ensure_tag_key
ensure_tag_key-Grows key s = elim (Option-cases (position (λ k. str_eq k key) s.tag_keys)) [
  | inl fresh ↦
      rw (fresh, ensure_tag_key)
        (record {
          added = key ∷ [];
          behind = refl;
          nodup = IsNodup-append key s.tag_keys (any_of-position _ s.tag_keys fresh);
        })
  | inr (i, known) ↦ rw (known, ensure_tag_key) (Grows-refl s.tag_keys)
]

pub register_tags-Grows :
    (keys : List Str) (s : TableSchema) → Grows s.tag_keys (register_tags keys s).tag_keys
unfolding register_tags
register_tags-Grows [] s = Grows-refl s.tag_keys
register_tags-Grows (key ∷ keys) s =
    Grows-trans _ _ _ (ensure_tag_key-Grows key s)
      (register_tags-Grows keys (ensure_tag_key key s).0)

tag_keys-ensure_field :
    (name : Str) (ft : FieldType) (s : TableSchema)
    → (ensure_field name ft s).0.tag_keys ≡ s.tag_keys
unfolding ensure_field
tag_keys-ensure_field name ft s = ground arith

tag_keys-register_field :
    (batch : WriteBatch) (name : Str) (s : TableSchema)
    → (register_field batch name s).tag_keys ≡ s.tag_keys
unfolding register_field
tag_keys-register_field batch name s =
    elim (Option-cases
      (column_type (index_or_zero (position (λ n. str_eq n name) batch.field_names)) batch.rows)) [
        | inl e ↦ rw (e, register_field)
        | inr (ft, e) ↦ rw (e, register_field) (tag_keys-ensure_field name ft s)
      ]

tag_keys-register_each :
    (batch : WriteBatch) (names : List Str) (s : TableSchema)
    → (foldl (λ t name. register_field batch name t) s names).tag_keys ≡ s.tag_keys
tag_keys-register_each batch [] s = refl
tag_keys-register_each batch (name ∷ names) s =
    tag_keys-register_each batch names (register_field batch name s)
    ∙ tag_keys-register_field batch name s

pub tag_keys-register_fields :
    (batch : WriteBatch) (s : TableSchema) → (register_fields batch s).tag_keys ≡ s.tag_keys
unfolding register_fields
tag_keys-register_fields batch s = tag_keys-register_each batch batch.field_names s
