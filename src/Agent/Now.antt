-- ===== src/Agent/Now.antt =====
-- agent/mod.rs: what a heartbeat sees of a table, and when it differs from what was seen before.
use iedb_agent.Base.{
  ◌+◌, ◌≡◌, ◌⊎◌, ◌↔◌, refl, sym, subst, false, List, [], ◌∷◌, ◌++◌, map, Option, some, none, arith,
  All, length, Bool-cases, inl, inr,
}
use iedb_agent.Base.Int.{ℤ, pos, quot, ◌≤ℤ◌, ltb_ℤ, eqb_ℤ_iff}
use iedb_agent.Buffer.Chunk.{Chunk, Row}
use iedb_agent.Buffer.Table.{Table}
use iedb_agent.Agent.{Seen, state_of, is_changed, min_or_zero, max_or_zero, sum_of_rows}

abbrev pub IsIn : ℤ → List ℤ → Type 0
IsIn t [] = ⊥
IsIn t (u ∷ ts) = (u ≡ t) ⊎ IsIn t ts

-- The least time, and the greatest; 0 if there is none.
abbrev pub IsLeast : List ℤ → ℤ → Type 0
IsLeast [] m = m ≡ pos 0
IsLeast (t ∷ ts) m = IsIn m (t ∷ ts) × All (λ (u : ℤ). m ≤ℤ u) (t ∷ ts)

abbrev pub IsGreatest : List ℤ → ℤ → Type 0
IsGreatest [] m = m ≡ pos 0
IsGreatest (t ∷ ts) m = IsIn m (t ∷ ts) × All (λ (u : ℤ). u ≤ℤ m) (t ∷ ts)

abbrev pub rows_in_memory : List Chunk → List Row
rows_in_memory [] = []
rows_in_memory (c ∷ cs) = c.rows ++ rows_in_memory cs

-- What there is to be seen of a table: its least and its greatest time in microseconds, and how many
-- rows are in memory.
pub record IsNow (table : Table) (now : Seen) : Type 0 where
  pub least : ℤ
  pub greatest : ℤ
  pub is_least : IsLeast (map (λ (c : Chunk). c.time_min) table.chunks) least
  pub is_greatest : IsGreatest (map (λ (c : Chunk). c.time_max) table.chunks) greatest
  pub same_least : now.min_time ≡ quot least (pos 1000)
  pub same_greatest : now.max_time ≡ quot greatest (pos 1000)
  pub same_rows : now.row_count ≡ length (rows_in_memory table.chunks)

All-below :
    (m n : ℤ) (ts : List ℤ) → m ≤ℤ n → All (λ (u : ℤ). n ≤ℤ u) ts → All (λ (u : ℤ). m ≤ℤ u) ts
All-below m n [] h k = tt
All-below m n (t ∷ ts) h k = (ground (arith, h, k.0), All-below m n ts h k.1)

All-above :
    (m n : ℤ) (ts : List ℤ) → n ≤ℤ m → All (λ (u : ℤ). u ≤ℤ n) ts → All (λ (u : ℤ). u ≤ℤ m) ts
All-above m n [] h k = tt
All-above m n (t ∷ ts) h k = (ground (arith, h, k.0), All-above m n ts h k.1)

min_or_zero-IsLeast : (ts : List ℤ) → IsLeast ts (min_or_zero ts)
min_or_zero-IsLeast [] = refl
min_or_zero-IsLeast (t ∷ []) = (inl refl, (ground arith, tt))
min_or_zero-IsLeast (t ∷ u ∷ ts) =
    let (here, all) = min_or_zero-IsLeast (u ∷ ts) in
    let m = min_or_zero (u ∷ ts) in
    elim (Bool-cases (ltb_ℤ m t)) [
      | inl further ↦
          let e : min_or_zero (t ∷ u ∷ ts) ≡ m = rw further refl in
          subst (IsLeast (t ∷ u ∷ ts)) (sym e) (inr here, (ground (arith, further), all))
      | inr other ↦
          let e : min_or_zero (t ∷ u ∷ ts) ≡ t = rw other refl in
          subst (IsLeast (t ∷ u ∷ ts)) (sym e)
            (inl refl, (ground arith, All-below t m (u ∷ ts) (ground (arith, other)) all))
    ]

max_or_zero-IsGreatest : (ts : List ℤ) → IsGreatest ts (max_or_zero ts)
max_or_zero-IsGreatest [] = refl
max_or_zero-IsGreatest (t ∷ []) = (inl refl, (ground arith, tt))
max_or_zero-IsGreatest (t ∷ u ∷ ts) =
    let (here, all) = max_or_zero-IsGreatest (u ∷ ts) in
    let m = max_or_zero (u ∷ ts) in
    elim (Bool-cases (ltb_ℤ t m)) [
      | inl further ↦
          let e : max_or_zero (t ∷ u ∷ ts) ≡ m = rw further refl in
          subst (IsGreatest (t ∷ u ∷ ts)) (sym e) (inr here, (ground (arith, further), all))
      | inr other ↦
          let e : max_or_zero (t ∷ u ∷ ts) ≡ t = rw other refl in
          subst (IsGreatest (t ∷ u ∷ ts)) (sym e)
            (inl refl, (ground arith, All-above t m (u ∷ ts) (ground (arith, other)) all))
    ]

length-rows : (xs ys : List Row) → length (xs ++ ys) ≡ length xs + length ys
length-rows [] ys = omega arith
length-rows (x ∷ xs) ys = omega (arith, length-rows xs ys)

sum_of_rows_lem : (cs : List Chunk) → sum_of_rows cs ≡ length (rows_in_memory cs)
sum_of_rows_lem [] = refl
sum_of_rows_lem (c ∷ cs) = omega (arith, length-rows c.rows (rows_in_memory cs), sum_of_rows_lem cs)

pub state_of-IsNow : (table : Table) → IsNow table (state_of table)
unfolding state_of
state_of-IsNow table = record {
  least = min_or_zero (map (λ (c : Chunk). c.time_min) table.chunks);
  greatest = max_or_zero (map (λ (c : Chunk). c.time_max) table.chunks);
  is_least = min_or_zero-IsLeast (map (λ (c : Chunk). c.time_min) table.chunks);
  is_greatest = max_or_zero-IsGreatest (map (λ (c : Chunk). c.time_max) table.chunks);
  same_least = refl;
  same_greatest = refl;
  same_rows = sum_of_rows_lem table.chunks;
}

pub is_changed_iff : (o : Option Seen) (now : Seen) → (is_changed o now ≡ false) ↔ (o ≡ some now)
unfolding is_changed
is_changed_iff none now = ground arith
is_changed_iff (some prev) now =
    ground (arith, eqb_ℤ_iff prev.min_time now.min_time, eqb_ℤ_iff prev.max_time now.max_time)
