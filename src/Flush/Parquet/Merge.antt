-- ===== src/Flush/Parquet/Merge.antt =====
-- flush/parquet.rs: the merge of the rows of several chunks, their order and their points.
use iedb_agent.Base.{
  ◌≡◌, ◌↔◌, ◌⊎◌, ◌∙◌, refl, Bool, true, false, List, [], ◌∷◌, ◌++◌, arith, any_of, All, Bool-cases,
  inl, inr, if◌then◌else◌,
}
use iedb_agent.Base.Int.{ℤ, eqb_ℤ_iff, ◌≤ℤ◌}
use iedb_agent.Base.Text.{Str, str_eq_iff, str_eq_self}
use iedb_agent.Buffer.Chunk.{Row, Chunk}
use iedb_agent.Flush.Parquet.{
  all_rows_of, insert_by_time, sort_by_time, strs_eq, same_point, dedup_after, dedup, merged_rows,
}

-- No row is older than the one before it.
abbrev pub From : ℤ → List Row → Type 0
From t rows = All (λ (r : Row). t ≤ℤ r.time) rows

abbrev pub IsChronological : List Row → Type 0
IsChronological [] = Unit
IsChronological (r ∷ rows) = From r.time rows × IsChronological rows

insert_by_time-From :
    (t : ℤ) (r : Row) (rows : List Row) → t ≤ℤ r.time → From t rows → From t (insert_by_time r rows)
unfolding insert_by_time
insert_by_time-From t r [] h f = (h, tt)
insert_by_time-From t r (q ∷ rows) h f = ground (arith, insert_by_time-From t r rows h f.1)

From-trans : (s t : ℤ) (rows : List Row) → s ≤ℤ t → From t rows → From s rows
From-trans s t [] h f = tt
From-trans s t (r ∷ rows) h f = (omega arith, From-trans s t rows h f.1)

insert_by_time-IsChronological :
    (r : Row) (rows : List Row) → IsChronological rows → IsChronological (insert_by_time r rows)
unfolding insert_by_time
insert_by_time-IsChronological r [] h = (tt, tt)
insert_by_time-IsChronological r (q ∷ rows) h = ground (
  arith,
  From-trans r.time q.time rows,
  insert_by_time-From q.time r rows,
  insert_by_time-IsChronological r rows h.1,
)

sort_by_time-IsChronological : (rows : List Row) → IsChronological (sort_by_time rows)
unfolding sort_by_time
sort_by_time-IsChronological [] = tt
sort_by_time-IsChronological (r ∷ rows) =
    insert_by_time-IsChronological r (sort_by_time rows) (sort_by_time-IsChronological rows)

dedup_after-From : (t : ℤ) (b : Row) (rows : List Row) → From t rows → From t (dedup_after b rows)
unfolding dedup_after
dedup_after-From t b [] f = tt
dedup_after-From t b (a ∷ rows) f =
    ground (arith, dedup_after-From t b rows f.1, dedup_after-From t a rows f.1)

dedup_after-IsChronological :
    (b : Row) (rows : List Row) → IsChronological rows → IsChronological (dedup_after b rows)
unfolding dedup_after
dedup_after-IsChronological b [] h = tt
dedup_after-IsChronological b (a ∷ rows) h = ground (
  arith,
  dedup_after-From a.time a rows h.0,
  dedup_after-IsChronological a rows h.1,
  dedup_after-IsChronological b rows h.1,
)

dedup-IsChronological : (rows : List Row) → IsChronological rows → IsChronological (dedup rows)
unfolding dedup
dedup-IsChronological [] h = tt
dedup-IsChronological (r ∷ rows) h =
    (dedup_after-From r.time r rows h.0, dedup_after-IsChronological r rows h.1)

-- The rows of a Parquet file are in chronological order.
pub merged_rows-IsChronological : (chunks : List Chunk) → IsChronological (merged_rows chunks)
unfolding merged_rows
merged_rows-IsChronological chunks =
    dedup-IsChronological (sort_by_time (all_rows_of chunks))
      (sort_by_time-IsChronological (all_rows_of chunks))

strs_eq_self : (ss : List Str) → strs_eq ss ss ≡ true
unfolding strs_eq
strs_eq_self [] = refl
strs_eq_self (s ∷ ss) = ground (arith, str_eq_self s, strs_eq_self ss)

same_point_self : (r : Row) → same_point r r ≡ true
unfolding same_point
same_point_self r = ground (arith, strs_eq_self r.tag_values)

-- Some row has the time and the tag values of `r`.
abbrev pub has_point : Row → List Row → Bool
has_point r rows = any_of (λ q. same_point r q) rows

has_point-insert_by_time :
    (r q : Row) (rows : List Row)
    → has_point r (insert_by_time q rows) ≡ (if same_point r q then true else has_point r rows)
unfolding insert_by_time
has_point-insert_by_time r q [] = refl
has_point-insert_by_time r q (p ∷ rows) = ground (arith, has_point-insert_by_time r q rows)

strs_eq_iff : (ss ts : List Str) → (strs_eq ss ts ≡ true) ↔ (ss ≡ ts)
unfolding strs_eq
strs_eq_iff [] [] = ground arith
strs_eq_iff [] (t ∷ ts) = ground arith
strs_eq_iff (s ∷ ss) [] = ground arith
strs_eq_iff (s ∷ ss) (t ∷ ts) = ground (arith, str_eq_iff s t, strs_eq_iff ss ts)

same_point_iff :
    (a b : Row) → (same_point a b ≡ true) ↔ ((a.time ≡ b.time) × (a.tag_values ≡ b.tag_values))
unfolding same_point
same_point_iff a b = ground (arith, eqb_ℤ_iff a.time b.time, strs_eq_iff a.tag_values b.tag_values)

-- Points are compared by their time and tag values alone.
same_point-cong : (r a b : Row) → same_point a b ≡ true → same_point r a ≡ same_point r b
same_point-cong r a b h = ground (arith, same_point_iff a b, same_point_iff r a, same_point_iff r b)

has_point-dedup_after :
    (r b : Row) (rows : List Row)
    → (if same_point r b then true else has_point r (dedup_after b rows))
      ≡ (if same_point r b then true else has_point r rows)
unfolding dedup_after
has_point-dedup_after r b [] = refl
has_point-dedup_after r b (a ∷ rows) =
    ground
      (arith, same_point-cong r a b, has_point-dedup_after r b rows, has_point-dedup_after r a rows)

has_point-sort_by_time :
    (r : Row) (rows : List Row) → has_point r (sort_by_time rows) ≡ has_point r rows
unfolding sort_by_time
has_point-sort_by_time r [] = refl
has_point-sort_by_time r (q ∷ rows) =
    ground (arith, has_point-insert_by_time r q (sort_by_time rows), has_point-sort_by_time r rows)

has_point-dedup : (r : Row) (rows : List Row) → has_point r (dedup rows) ≡ has_point r rows
unfolding dedup
has_point-dedup r [] = refl
has_point-dedup r (q ∷ rows) = ground (arith, has_point-dedup_after r q rows)

has_point-merged :
    (r : Row) (chunks : List Chunk)
    → has_point r (merged_rows chunks) ≡ has_point r (all_rows_of chunks)
unfolding merged_rows
has_point-merged r chunks =
    has_point-dedup r (sort_by_time (all_rows_of chunks))
    ∙ has_point-sort_by_time r (all_rows_of chunks)

-- Some row has exactly this time and these tag values.
abbrev pub HasPoint : ℤ → List Str → List Row → Type 0
HasPoint t tags [] = ⊥
HasPoint t tags (r ∷ rows) = ((t ≡ r.time) × (tags ≡ r.tag_values)) ⊎ HasPoint t tags rows

abbrev pub HasPointIn : ℤ → List Str → List Chunk → Type 0
HasPointIn t tags [] = ⊥
HasPointIn t tags (c ∷ cs) = HasPoint t tags c.rows ⊎ HasPointIn t tags cs

has_point_iff :
    (r : Row) (rows : List Row) → (has_point r rows ≡ true) ↔ HasPoint r.time r.tag_values rows
has_point_iff r [] = ((λ e. ground (arith, e)), (λ h. absurd h))
has_point_iff r (q ∷ rows) = ground (arith, same_point_iff r q, has_point_iff r rows)

HasPoint-append :
    (t : ℤ) (tags : List Str) (xs ys : List Row)
    → HasPoint t tags (xs ++ ys) ↔ (HasPoint t tags xs ⊎ HasPoint t tags ys)
HasPoint-append t tags [] ys = ground arith
HasPoint-append t tags (x ∷ xs) ys = ground (arith, HasPoint-append t tags xs ys)

HasPoint-all_rows_of :
    (t : ℤ) (tags : List Str) (cs : List Chunk)
    → HasPoint t tags (all_rows_of cs) ↔ HasPointIn t tags cs
unfolding all_rows_of
HasPoint-all_rows_of t tags [] = ground arith
HasPoint-all_rows_of t tags (c ∷ cs) =
    ground (arith, HasPoint-append t tags c.rows (all_rows_of cs), HasPoint-all_rows_of t tags cs)

-- Some row among the merged rows has a given time and given tag values exactly if some row of one of
-- the chunks has this time and these tag values.
pub HasPoint-merged_rows :
    (t : ℤ) (tags : List Str) (chunks : List Chunk)
    → HasPoint t tags (merged_rows chunks) ↔ HasPointIn t tags chunks
HasPoint-merged_rows t tags chunks =
    let r : Row = record { time = t; tag_values = tags; field_values = [] } in
    ground (
      arith,
      has_point_iff r (merged_rows chunks),
      has_point_iff r (all_rows_of chunks),
      has_point-merged r chunks,
      HasPoint-all_rows_of t tags chunks,
    )

-- No row of the file is at the point of the row before it.
abbrev pub IsDeduped : List Row → Type 0
IsDeduped [] = Unit
IsDeduped (r ∷ []) = Unit
IsDeduped (r ∷ q ∷ rows) = (same_point q r ≡ false) × IsDeduped (q ∷ rows)

dedup_after-IsDeduped : (b : Row) (rows : List Row) → IsDeduped (b ∷ dedup_after b rows)
unfolding dedup_after
dedup_after-IsDeduped b [] = tt
dedup_after-IsDeduped b (a ∷ rows) = elim (Bool-cases (same_point a b)) [
  | inl same ↦ rw same (dedup_after-IsDeduped b rows)
  | inr other ↦ rw other (other, dedup_after-IsDeduped a rows)
]

-- No two neighbouring rows of a Parquet file share the time and the tag values.
pub merged_rows-IsDeduped : (chunks : List Chunk) → IsDeduped (merged_rows chunks)
unfolding merged_rows
merged_rows-IsDeduped chunks = go (sort_by_time (all_rows_of chunks))
  where
    go : (rows : List Row) → IsDeduped (dedup rows)
    go [] = unfold dedup in tt
    go (r ∷ rows) = unfold dedup in dedup_after-IsDeduped r rows
