-- ===== src/Buffer/Query/Scan.antt =====
-- buffer/query.rs: a query through the tag index, and a scan of all rows.
use iedb_agent.Base.{
  ℕ, zero, suc, ◌+◌, ◌<◌, ◌≡◌, ◌↔◌, refl, ap, Bool-cases, inl, inr, Bool, true, ◌&&◌, List, [], ◌∷◌,
  ◌++◌, map, Option, none, some, arith, length, get_elem?, drop, filter_by, All, if◌then◌else◌,
}
use iedb_agent.Base.Int.{ℤ, ◌≤ℤ◌}
use iedb_agent.Base.Text.{Str}
use iedb_agent.Buffer.Schema.{TableSchema}
use iedb_agent.Buffer.Chunk.{Row, Chunk}
use iedb_agent.Buffer.Table.{Table}
use iedb_agent.Buffer.Tags.{has_tag, positions, IsExact, IsWithin}
use iedb_agent.Buffer.Query.{
  Json, QueryRow, concat_each, in_range, indices, candidates, query_row, at_row, query_chunk,
  query_table,
}

-- What the two tag parameters ask of a row: nothing, unless both are given.
abbrev pub tag_matches : List Str → Option Str → Option Str → Row → Bool
tag_matches keys (some k) (some v) row = has_tag keys k v row.tag_values
tag_matches keys (some k) none row = true
tag_matches keys none v row = true

get_elem?-drop {ℓ} :
    {A : Type ℓ} (xs : List A) (n : ℕ) (y : A) (ys : List A)
    → drop n xs ≡ y ∷ ys
    → (get_elem? xs n ≡ some y) × (drop (suc n) xs ≡ ys)
get_elem?-drop [] zero y ys h = cc
get_elem?-drop [] (suc n) y ys h = cc
get_elem?-drop (x ∷ xs) zero y ys h = (cc, cc)
get_elem?-drop (x ∷ xs) (suc n) y ys h = get_elem?-drop xs n y ys h

indices-positions :
    (i : ℕ) (rows : List Row) → indices (length rows) i ≡ positions (λ _. true) i rows
unfolding indices positions
indices-positions i [] = refl
indices-positions i (r ∷ rows) = ap (◌∷◌ i) (indices-positions (suc i) rows)

-- A fault in the list of indices is one that is not below the number of rows.
get_elem?-some {ℓ} :
    {A : Type ℓ} (xs : List A) (i : ℕ) → i < length xs → (a : A) × (get_elem? xs i ≡ some a)
get_elem?-some [] i h = absurd (omega arith)
get_elem?-some (x ∷ xs) zero h = (x, refl)
get_elem?-some (x ∷ xs) (suc i) h = get_elem?-some xs i (omega arith)

indices_below : (n i m : ℕ) → n + i ≡ m → All (λ j. j < m) (indices n i)
unfolding indices
indices_below zero i m h = tt
indices_below (suc n) i m h = (omega arith, indices_below n (suc i) m (omega arith))

module _ (J : Json) (schema : TableSchema) (start_ns end_ns : Option ℤ) where
  -- The rows with `p` in the range of times, in order.
  abbrev pub scan_rows : (Row → Bool) → List Row → List (QueryRow J)
  scan_rows p rows =
      map (query_row J schema) (filter_by (λ row. in_range start_ns end_ns row && p row) rows)

  each_position :
      (p : Row → Bool) (rows : List Row) (n : ℕ) (rest : List Row)
      → drop n rows ≡ rest
      → concat_each
          (λ idx. at_row J schema start_ns end_ns (get_elem? rows idx))
          (positions p n rest)
        ≡ some (scan_rows p rest)
  unfolding concat_each positions at_row
  each_position p rows n [] h = refl
  each_position p rows n (r ∷ rest) h = ground (
    arith,
    each_position p rows (suc n) rest (get_elem?-drop rows n r rest h).1,
    get_elem?-drop rows n r rest h,
  )

  query_chunk-scan :
      (tag_key tag_value : Option Str) (c : Chunk)
      → IsExact schema.tag_keys c.rows c.tag_index
      → query_chunk J schema start_ns end_ns tag_key tag_value c
        ≡ some (scan_rows (tag_matches schema.tag_keys tag_key tag_value) c.rows)
  unfolding query_chunk candidates
  query_chunk-scan (some k) (some v) c h =
      rw (h.lists k v)
        (each_position (λ r. has_tag schema.tag_keys k v r.tag_values) c.rows 0 c.rows refl)
  query_chunk-scan (some k) none c h =
      rw (indices-positions 0 c.rows) (each_position (λ _. true) c.rows 0 c.rows refl)
  query_chunk-scan none v c h =
      rw (indices-positions 0 c.rows) (each_position (λ _. true) c.rows 0 c.rows refl)

  -- All that a scan of the chunks one by one gives.
  unfoldable pub scan_chunks : (Row → Bool) → List Chunk → List (QueryRow J)
  scan_chunks p [] = []
  scan_chunks p (c ∷ cs) = scan_rows p c.rows ++ scan_chunks p cs

  query_chunks-scan :
      (tag_key tag_value : Option Str) (cs : List Chunk)
      → All (λ (c : Chunk). IsExact schema.tag_keys c.rows c.tag_index) cs
      → concat_each (query_chunk J schema start_ns end_ns tag_key tag_value) cs
        ≡ some (scan_chunks (tag_matches schema.tag_keys tag_key tag_value) cs)
  unfolding concat_each scan_chunks
  query_chunks-scan k v [] h = refl
  query_chunks-scan k v (c ∷ cs) h = rw (query_chunk-scan k v c h.0, query_chunks-scan k v cs h.1)

  each_total :
      (rows : List Row) (is : List ℕ)
      → All (λ i. i < length rows) is
      → (out : List (QueryRow J)) × (concat_each
            (λ idx. at_row J schema start_ns end_ns (get_elem? rows idx))
            is
          ≡ some out)
  unfolding concat_each at_row
  each_total rows [] h = ([], refl)
  each_total rows (i ∷ is) h =
      let (row, found) = get_elem?-some rows i h.0 in
      let (out, e) = each_total rows is h.1 in
      (
        (if in_range start_ns end_ns row then query_row J schema row ∷ [] else []) ++ out,
        rw (found, e),
      )

  candidates_below :
      (tag_key tag_value : Option Str) (c : Chunk)
      → IsWithin c.rows c.tag_index
      → All (λ i. i < length c.rows) (candidates tag_key tag_value c)
  unfolding candidates
  candidates_below (some k) (some v) c h = h.in_range k v
  candidates_below (some k) none c h = indices_below (length c.rows) 0 _ (omega arith)
  candidates_below none v c h = indices_below (length c.rows) 0 _ (omega arith)

  query_chunks_total :
      (tag_key tag_value : Option Str) (cs : List Chunk)
      → All (λ (c : Chunk). IsWithin c.rows c.tag_index) cs
      → (out : List (QueryRow J)) × (concat_each
            (query_chunk J schema start_ns end_ns tag_key tag_value)
            cs
          ≡ some out)
  unfolding concat_each query_chunk
  query_chunks_total k v [] h = ([], refl)
  query_chunks_total k v (c ∷ cs) h =
      let (a, e) = each_total c.rows (candidates k v c) (candidates_below k v c h.0) in
      let (b, g) = query_chunks_total k v cs h.1 in (a ++ b, rw (e, g))

abbrev pub rows_of_chunks : List Chunk → List Row
rows_of_chunks [] = []
rows_of_chunks (c ∷ cs) = c.rows ++ rows_of_chunks cs

-- A time at or after the start, and one at or before the end, if they are given.
abbrev pub AtLeast : Option ℤ → ℤ → Type 0
AtLeast none t = Unit
AtLeast (some start) t = start ≤ℤ t

abbrev pub AtMost : Option ℤ → ℤ → Type 0
AtMost none t = Unit
AtMost (some end) t = t ≤ℤ end

module _ (J : Json) (schema : TableSchema) (start_ns end_ns : Option ℤ) (p : Row → Bool) where
  abbrev pub IsAsked : Row → Type 0
  IsAsked row = AtLeast start_ns row.time × AtMost end_ns row.time × (p row ≡ true)

  -- Of the rows, in their order, those that are asked for, as JSON.
  pub data IsScan : List Row → List (QueryRow J) → Type 0 where
    done : IsScan [] []
    kept :
        {row : Row} {rows : List Row} {out : List (QueryRow J)}
        → IsAsked row
        → IsScan rows out
        → IsScan (row ∷ rows) (query_row J schema row ∷ out)
    left :
        {row : Row} {rows : List Row} {out : List (QueryRow J)}
        → ¬ IsAsked row
        → IsScan rows out
        → IsScan (row ∷ rows) out

  asked :
      (row : Row) (start end : Option ℤ)
      → (in_range start end row && p row ≡ true)
        ↔ (AtLeast start row.time × AtMost end row.time × (p row ≡ true))
  asked row none none = ground arith
  asked row none (some e) = ground arith
  asked row (some s) none = ground arith
  asked row (some s) (some e) = ground arith

  scan_rows-IsScan : (rows : List Row) → IsScan rows (scan_rows J schema start_ns end_ns p rows)
  scan_rows-IsScan [] = done
  scan_rows-IsScan (row ∷ rows) = elim (Bool-cases (in_range start_ns end_ns row && p row)) [
    | inl is ↦ rw is (kept ((asked row start_ns end_ns).0 is) (scan_rows-IsScan rows))
    | inr not_asked ↦ rw not_asked (
        left (λ h. absurd (ground (arith, (asked row start_ns end_ns).1 h, not_asked)))
          (scan_rows-IsScan rows))
  ]

  IsScan-append :
      (xs ys : List Row) (a b : List (QueryRow J))
      → IsScan xs a
      → IsScan ys b
      → IsScan (xs ++ ys) (a ++ b)
  IsScan-append [] ys [] b done k = k
  IsScan-append [] ys (o ∷ a) b h k = elim h [ ]
  IsScan-append (x ∷ xs) ys (o ∷ a) b (kept h rest) k = kept h (IsScan-append xs ys a b rest k)
  IsScan-append (x ∷ xs) ys a b (left h rest) k = left h (IsScan-append xs ys a b rest k)

  scan_chunks-IsScan :
      (cs : List Chunk) → IsScan (rows_of_chunks cs) (scan_chunks J schema start_ns end_ns p cs)
  unfolding scan_chunks
  scan_chunks-IsScan [] = done
  scan_chunks-IsScan (c ∷ cs) =
      IsScan-append c.rows (rows_of_chunks cs) _ _ (scan_rows-IsScan c.rows) (scan_chunks-IsScan cs)

module _ (J : Json) (start_ns end_ns : Option ℤ) (tag_key tag_value : Option Str)
    (table : Table) where
  -- If the tag indexes are exact, a query does not panic, and its rows are those of the chunks in
  -- order, each kept if its time is neither before the start nor after the end and its tag has the
  -- value asked for, and left out if not.
  pub query_table-IsScan :
      All (λ (c : Chunk). IsExact table.schema.tag_keys c.rows c.tag_index) table.chunks
      → (out : List (QueryRow J)) × (query_table J table start_ns end_ns tag_key tag_value
          ≡ some out)
        × IsScan J table.schema start_ns end_ns
            (tag_matches table.schema.tag_keys tag_key tag_value)
            (rows_of_chunks table.chunks)
            out
  unfolding query_table
  query_table-IsScan h =
      let p = tag_matches table.schema.tag_keys tag_key tag_value in
      (
        scan_chunks J table.schema start_ns end_ns p table.chunks,
        query_chunks-scan J table.schema start_ns end_ns tag_key tag_value table.chunks h,
        scan_chunks-IsScan J table.schema start_ns end_ns p table.chunks,
      )

  pub query_table_total :
      All (λ (c : Chunk). IsWithin c.rows c.tag_index) table.chunks
      → (out : List (QueryRow J)) × (query_table J table start_ns end_ns tag_key tag_value
          ≡ some out)
  unfolding query_table
  query_table_total h =
      query_chunks_total J table.schema start_ns end_ns tag_key tag_value table.chunks h
