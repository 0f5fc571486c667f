-- ===== src/Buffer/Tags.antt =====
-- buffer/chunk.rs: what the tag index of a chunk lists.
use iedb_agent.Base.{
  ℕ, zero, suc, ◌+◌, ◌≤◌, ◌≡◌, refl, Bool, true, false, List, [], ◌∷◌, ◌++◌, Option, none, some,
  arith, ◌&&◌, ◌⊎◌, inl, inr, if◌then◌else◌, length, get_elem?, drop, any_of, All, length-append,
  All-append, All-map, ◌<◌,
}
use iedb_agent.Base.Text.{Str, str_eq, str_eq_iff}
use iedb_agent.Base.Dict.{Dict, lookup, update, or_else, lookup-update}
use iedb_agent.Buffer.Chunk.{Row, TagIndex, index_push, index_tags}

-- The value of a tag in a row, by the position of its key.
unfoldable pub tag_of : List Str → List Str → Str → Option Str
tag_of [] vs k = none
tag_of (key ∷ keys) [] k = none
tag_of (key ∷ keys) (v ∷ vs) k = if str_eq key k then some v else tag_of keys vs k

abbrev pub is_value : Str → Option Str → Bool
is_value v none = false
is_value v (some u) = str_eq u v

unfoldable pub has_tag : List Str → Str → Str → List Str → Bool
has_tag keys k v vs = is_value v (tag_of keys vs k)

-- The rows that the index lists: the two `get`s of a query, and nothing on a missing key.
abbrev pub values_or : Option (Dict (List ℕ)) → Str → List ℕ
values_or none v = []
values_or (some values) v = or_else (lookup v values) []

unfoldable pub rows_with : Str → Str → TagIndex → List ℕ
rows_with k v index = values_or (lookup k index) v

abbrev pub append_if : Bool → List ℕ → ℕ → List ℕ
append_if true is i = is ++ i ∷ []
append_if false is i = is

values_or-update :
    (value v : Str) (i : ℕ) (o : Option (Dict (List ℕ)))
    → values_or (some (update value [] (λ rows. rows ++ i ∷ []) (or_else o []))) v
      ≡ append_if (str_eq value v) (values_or o v) i
unfolding lookup
values_or-update value v i none =
    ground (arith, lookup-update value v [] (λ rows. rows ++ i ∷ []) [], str_eq_iff value v)
values_or-update value v i (some m) =
    ground (arith, lookup-update value v [] (λ rows. rows ++ i ∷ []) m, str_eq_iff value v)

rows_with-index_push :
    (key value k v : Str) (i : ℕ) (index : TagIndex)
    → rows_with k v (index_push key value i index)
      ≡ append_if (str_eq key k && str_eq value v) (rows_with k v index) i
unfolding rows_with index_push
rows_with-index_push key value k v i index = ground (
  arith,
  lookup-update key k [] (λ values. update value [] (λ rows. rows ++ i ∷ []) values) index,
  str_eq_iff key k,
  values_or-update value v i (lookup key index),
)

-- No key stands twice.
abbrev pub IsNodup : List Str → Type 0
IsNodup [] = Unit
IsNodup (k ∷ ks) = (any_of (λ j. str_eq j k) ks ≡ false) × IsNodup ks

tag_of-none :
    (keys vs : List Str) (k : Str) → any_of (λ j. str_eq j k) keys ≡ false → tag_of keys vs k ≡ none
unfolding tag_of
tag_of-none [] vs k h = refl
tag_of-none (key ∷ keys) [] k h = refl
tag_of-none (key ∷ keys) (v ∷ vs) k h = ground (arith, tag_of-none keys vs k)

-- The loop of `index_tags` with the values from `key_idx` on taken apart.
index_zip : List Str → List Str → ℕ → TagIndex → TagIndex
index_zip [] vs i index = index
index_zip (key ∷ keys) [] i index = index
index_zip (key ∷ keys) (v ∷ vs) i index = index_zip keys vs i (index_push key v i index)

drop-cases {ℓ} :
    {A : Type ℓ} (vs : List A) (n : ℕ)
    → ((get_elem? vs n ≡ none) × (drop n vs ≡ []) × (drop (suc n) vs ≡ []))
      ⊎ ((v : A) × (get_elem? vs n ≡ some v) × (drop n vs ≡ v ∷ drop (suc n) vs))
drop-cases [] zero = inl (refl, refl, refl)
drop-cases [] (suc n) = inl (refl, refl, refl)
drop-cases (v ∷ vs) zero = inr (v, refl, refl)
drop-cases (v ∷ vs) (suc n) = drop-cases vs n

index_zip-nil : (keys : List Str) (i : ℕ) (index : TagIndex) → index_zip keys [] i index ≡ index
unfolding index_zip
index_zip-nil [] i index = refl
index_zip-nil (key ∷ keys) i index = refl

index_tags-index_zip :
    (keys vs : List Str) (n i : ℕ) (index : TagIndex)
    → index_tags keys n vs i index ≡ index_zip keys (drop n vs) i index
unfolding index_tags index_zip
index_tags-index_zip [] vs n i index = refl
index_tags-index_zip (key ∷ keys) vs n i index = elim (drop-cases vs n) [
  | inl (missing, here, later) ↦
      rw (missing, here, index_tags-index_zip keys vs (suc n) i index, later)
        (index_zip-nil keys i index)
  | inr (v, found, here) ↦
      rw (found, here) (index_tags-index_zip keys vs (suc n) i (index_push key v i index))
]

rows_with-index_zip :
    (keys vs : List Str) (k v : Str) (i : ℕ) (index : TagIndex)
    → IsNodup keys
    → rows_with k v (index_zip keys vs i index)
      ≡ append_if (has_tag keys k v vs) (rows_with k v index) i
unfolding index_zip has_tag tag_of
rows_with-index_zip [] vs k v i index h = refl
rows_with-index_zip (key ∷ keys) [] k v i index h = refl
rows_with-index_zip (key ∷ keys) (u ∷ vs) k v i index h = ground (
  arith,
  rows_with-index_zip keys vs k v i (index_push key u i index) h.1,
  rows_with-index_push key u k v i index,
  tag_of-none keys vs k,
  str_eq_iff key k,
  h.0,
)

-- Indexing a row lists it under the value of each of its tags, and under no other.
pub rows_with-index_tags :
    (keys vs : List Str) (k v : Str) (i : ℕ) (index : TagIndex)
    → IsNodup keys
    → rows_with k v (index_tags keys 0 vs i index)
      ≡ append_if (has_tag keys k v vs) (rows_with k v index) i
rows_with-index_tags keys vs k v i index h =
    rw (index_tags-index_zip keys vs 0 i index) (rows_with-index_zip keys vs k v i index h)

-- The positions of the rows that have the tag, counted from `i`.
unfoldable pub positions : (Row → Bool) → ℕ → List Row → List ℕ
positions p i [] = []
positions p i (r ∷ rs) = let rest = positions p (suc i) rs in if p r then i ∷ rest else rest

pub positions-append :
    (p : Row → Bool) (i : ℕ) (rs : List Row) (r : Row)
    → positions p i (rs ++ r ∷ []) ≡ append_if (p r) (positions p i rs) (i + length rs)
unfolding positions
positions-append p i [] r = ground arith
positions-append p i (q ∷ rs) r = ground (arith, positions-append p (suc i) rs r)

-- The index of a chunk agrees with a scan of its rows, for every key and value.
pub record IsExact (keys : List Str) (rows : List Row) (index : TagIndex) : Type 0 where
  pub lists :
      (k v : Str) → rows_with k v index ≡ positions (λ r. has_tag keys k v r.tag_values) 0 rows

-- One more row, indexed at the end of the chunk.
pub index_tags-IsExact :
    (keys : List Str) (rows : List Row) (row : Row) (i : ℕ) (index : TagIndex)
    → IsNodup keys
    → i ≡ length rows
    → IsExact keys rows index
    → IsExact keys (rows ++ row ∷ []) (index_tags keys 0 row.tag_values i index)
index_tags-IsExact keys rows row i index nodup e h = record {
  lists = λ k v.
      let counted : 0 + length rows ≡ length rows = omega arith in
      rw (
        rows_with-index_tags keys row.tag_values k v i index nodup,
        h.lists k v,
        positions-append (λ r. has_tag keys k v r.tag_values) 0 rows row,
        e,
        counted,
      );
}

-- A row with no more values than there are keys reads the same when keys are added behind.
tag_of-append :
    (keys more vs : List Str) (k : Str)
    → length vs ≤ length keys
    → tag_of (keys ++ more) vs k ≡ tag_of keys vs k
unfolding tag_of
tag_of-append [] [] [] k h = refl
tag_of-append [] (m ∷ more) [] k h = refl
tag_of-append [] more (v ∷ vs) k h = absurd (omega arith)
tag_of-append (key ∷ keys) more [] k h = refl
tag_of-append (key ∷ keys) more (v ∷ vs) k h =
    ground (arith, tag_of-append keys more vs k (omega arith))

abbrev pub FitsKeys : List Str → Row → Type 0
FitsKeys keys r = length r.tag_values ≤ length keys

positions-grow :
    (keys more : List Str) (k v : Str) (i : ℕ) (rows : List Row)
    → All (FitsKeys keys) rows
    → positions (λ r. has_tag (keys ++ more) k v r.tag_values) i rows
      ≡ positions (λ r. has_tag keys k v r.tag_values) i rows
unfolding positions has_tag
positions-grow keys more k v i [] h = refl
positions-grow keys more k v i (r ∷ rows) h =
    rw (tag_of-append keys more r.tag_values k h.0, positions-grow keys more k v (suc i) rows h.1)

pub IsExact-grow :
    (keys more : List Str) (rows : List Row) (index : TagIndex)
    → All (FitsKeys keys) rows
    → IsExact keys rows index
    → IsExact (keys ++ more) rows index
IsExact-grow keys more rows index fits h = record {
  lists = λ k v. rw (positions-grow keys more k v 0 rows fits) (h.lists k v);
}

-- The index lists only rows that the chunk has.
pub record IsWithin (rows : List Row) (index : TagIndex) : Type 0 where
  pub in_range : (k v : Str) → All (λ i. i < length rows) (rows_with k v index)

append_if-All :
    (n : ℕ) (b : Bool) (is : List ℕ) (i : ℕ)
    → i < n
    → All (λ j. j < n) is
    → All (λ j. j < n) (append_if b is i)
append_if-All n true is i h a = All-append (λ j. j < n) is (i ∷ []) a (h, tt)
append_if-All n false is i h a = a

rows_with-index_zip_below :
    (keys vs : List Str) (k v : Str) (n i : ℕ) (index : TagIndex)
    → i < n
    → All (λ j. j < n) (rows_with k v index)
    → All (λ j. j < n) (rows_with k v (index_zip keys vs i index))
unfolding index_zip
rows_with-index_zip_below [] vs k v n i index h a = a
rows_with-index_zip_below (key ∷ keys) [] k v n i index h a = a
rows_with-index_zip_below (key ∷ keys) (u ∷ vs) k v n i index h a =
    rows_with-index_zip_below keys vs k v n i (index_push key u i index) h (
      rw (rows_with-index_push key u k v i index)
        (append_if-All n (str_eq key k && str_eq u v) (rows_with k v index) i h a))

pub index_tags-IsWithin :
    (keys : List Str) (rows : List Row) (row : Row) (i : ℕ) (index : TagIndex)
    → i ≡ length rows
    → IsWithin rows index
    → IsWithin (rows ++ row ∷ []) (index_tags keys 0 row.tag_values i index)
index_tags-IsWithin keys rows row i index e h = record {
  in_range = λ k v.
      let n : length (rows ++ row ∷ []) ≡ length rows + 1 = length-append rows (row ∷ []) in
      rw (index_tags-index_zip keys row.tag_values 0 i index) (
        rows_with-index_zip_below keys row.tag_values k v _ i index (omega arith) (
          All-map (λ j. j < length rows) (λ j. j < length (rows ++ row ∷ []))
            (λ j below. omega arith) _ (h.in_range k v)));
}
