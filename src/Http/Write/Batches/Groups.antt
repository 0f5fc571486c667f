-- ===== src/Http/Write/Batches/Groups.antt =====
-- http/write.rs: the periods of the rows and their groups.
use iedb_agent.Base.{
  ℕ, ◌+◌, ◌*◌, ◌/◌, ◌%◌, ◌≤◌, ◌<◌, ◌≡◌, refl, sym, ap, ◌∙◌, Bool, false, List, [], ◌∷◌, ◌++◌,
  Option, none, some, arith, All, if◌then◌else◌, Option-cases, inl, inr, subst, append-nil,
  append_assoc,
}
use native.Mathlib.Nat.{div-mul-le_self, lt-div-mul-add, mul-mod_left}
use iedb_agent.Base.Int.{ℤ, pos, eqb_ℤ, quot_pos, mul_pos, ◌<ℤ◌, quot, div_i64, eq_of_parts}
use iedb_agent.Buffer.Chunk.{Row}
use iedb_agent.Http.Write.Batches.{chunk_time_of, group_push, group_rows_from, group_rows}

div_i64_pos : (t k : ℕ) → 0 < k → div_i64 (pos t) (pos k) ≡ some (quot (pos t) (pos k))
unfolding div_i64
div_i64_pos t k h = ground arith

-- For a time from 1970 on and a positive interval, the chunk's time is a multiple of the interval,
-- and the time lies in the period that it begins.
pub chunk_time_bounds :
    (t k : ℕ) (row : Row)
    → row.time ≡ pos t
    → 0 < k
    → (c : ℕ) × (chunk_time_of (pos k) row ≡ some (pos c)) × (c % k ≡ 0) × (c ≤ t) × (t < c + k)
chunk_time_bounds t k row e h = (
  t / k * k,
  unfold chunk_time_of in rw (e, div_i64_pos t k h, quot_pos t k, mul_pos (t / k) k),
  mul-mod_left _ _,
  div-mul-le_self t k,
  lt-div-mul-add h,
)

-- An interval of zero panics, whatever the row.
pub chunk_time_zero : (row : Row) → chunk_time_of (pos 0) row ≡ none
unfolding chunk_time_of div_i64
chunk_time_zero row = ground arith

abbrev pub rows_at : ℤ → List (ℤ × List Row) → List Row
rows_at t [] = []
rows_at t ((s, rows) ∷ groups) = if eqb_ℤ s t then rows else rows_at t groups

-- The times of the groups rise.
abbrev pub IsAscending : List (ℤ × List Row) → Type 0
IsAscending [] = Unit
IsAscending (g ∷ gs) = All (λ (h : ℤ × List Row). g.0 <ℤ h.0) gs × IsAscending gs

abbrev Above : ℤ → List (ℤ × List Row) → Type 0
Above t gs = All (λ (h : ℤ × List Row). t <ℤ h.0) gs

Above-trans : (s t : ℤ) (gs : List (ℤ × List Row)) → s <ℤ t → Above t gs → Above s gs
Above-trans s t [] h a = tt
Above-trans s t (g ∷ gs) h a = (omega arith, Above-trans s t gs h a.1)

rows_at-none : (t : ℤ) (gs : List (ℤ × List Row)) → Above t gs → rows_at t gs ≡ []
rows_at-none t [] a = refl
rows_at-none t ((s, rows) ∷ gs) a = ground (arith, rows_at-none t gs a.1)

module _ (t : ℤ) (row : Row) where
  group_push-Above :
      (s : ℤ) (gs : List (ℤ × List Row)) → s <ℤ t → Above s gs → Above s (group_push t row gs)
  unfolding group_push
  group_push-Above s [] h a = (h, tt)
  group_push-Above s ((u, rows) ∷ gs) h a = ground (arith, group_push-Above s gs h a.1)

  group_push-IsAscending :
      (gs : List (ℤ × List Row)) → IsAscending gs → IsAscending (group_push t row gs)
  unfolding group_push
  group_push-IsAscending [] h = (tt, tt)
  group_push-IsAscending ((u, rows) ∷ gs) h = ground (
    arith,
    eq_of_parts u t,
    Above-trans t u gs,
    group_push-Above u gs,
    group_push-IsAscending gs h.1,
  )

  rows_at-group_push :
      (s : ℤ) (gs : List (ℤ × List Row))
      → IsAscending gs
      → rows_at s (group_push t row gs)
        ≡ (if eqb_ℤ t s then rows_at s gs ++ row ∷ [] else rows_at s gs)
  unfolding group_push
  rows_at-group_push s [] h = ground arith
  rows_at-group_push s ((u, rows) ∷ gs) h = ground (
    arith,
    eq_of_parts u t,
    eq_of_parts t s,
    eq_of_parts u s,
    Above-trans t u gs,
    rows_at-none t gs,
    rows_at-group_push s gs h.1,
  )

-- Whether a row belongs to the period at `s`.
abbrev pub is_at : ℤ → Option ℤ → Bool
is_at s none = false
is_at s (some t) = eqb_ℤ t s

unfoldable pub rows_of : ℤ → ℤ → List Row → List Row
rows_of interval s [] = []
rows_of interval s (row ∷ rows) =
    let rest = rows_of interval s rows in
    if is_at s (chunk_time_of interval row) then row ∷ rest else rest

group_rows_from-none : (interval : ℤ) (rows : List Row) → group_rows_from interval rows none ≡ none
unfolding group_rows_from
group_rows_from-none interval [] = refl
group_rows_from-none interval (row ∷ rows) = refl

group_rows_from_lem :
    (interval : ℤ) (rows : List Row) (before groups : List (ℤ × List Row))
    → IsAscending before
    → group_rows_from interval rows (some before) ≡ some groups
    → IsAscending groups
      × ((s : ℤ) → rows_at s groups ≡ rows_at s before ++ rows_of interval s rows)
unfolding group_rows_from rows_of
group_rows_from_lem interval [] before groups h e =
    let same : before ≡ groups = cc in
    (subst IsAscending same h, λ s. ap (rows_at s) (sym same) ∙ sym (append-nil (rows_at s before)))
group_rows_from_lem interval (row ∷ rows) before groups h e =
    elim (Option-cases (chunk_time_of interval row)) [
      | inl panic ↦
          let stopped : none ≡ some groups =
            sym (group_rows_from-none interval rows) ∙ (rw panic at e) in
          cc
      | inr (t, found) ↦
          let rest =
            group_rows_from_lem interval rows (group_push t row before) groups
              (group_push-IsAscending t row before h) (rw found at e) in
          (rest.0, λ s. rest.1 s ∙ rw (rows_at-group_push t row s before h, found) (split s t))
    ]
  where
    split :
        (s t : ℤ)
        → (if eqb_ℤ t s then rows_at s before ++ row ∷ [] else rows_at s before)
            ++ rows_of interval s rows
          ≡ rows_at s before
            ++ (if eqb_ℤ t s then row ∷ rows_of interval s rows else rows_of interval s rows)
    split s t = ground (arith, append_assoc (rows_at s before) (row ∷ []) (rows_of interval s rows))

-- If the grouping does not panic, the groups rise and the group of each period has exactly the rows
-- of that period, in their order.
pub group_rows_lem :
    (interval : ℤ) (rows : List Row) (groups : List (ℤ × List Row))
    → group_rows interval rows ≡ some groups
    → IsAscending groups × ((s : ℤ) → rows_at s groups ≡ rows_of interval s rows)
unfolding group_rows
group_rows_lem interval rows groups e = group_rows_from_lem interval rows [] groups tt e
