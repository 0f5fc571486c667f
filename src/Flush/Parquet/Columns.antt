-- ===== src/Flush/Parquet/Columns.antt =====
-- flush/parquet.rs: what a column of values and definition levels says of each row.
use iedb_agent.Base.{
  ℕ, zero, suc, ◌≡◌, ◌≢◌, refl, List, [], ◌∷◌, map, Option, none, some, arith, length,
}
use iedb_agent.Buffer.Chunk.{Row}
use iedb_agent.Flush.Parquet.{
  Cell, value, empty, out_of_range, Column, ParquetResult, u64_exceeds_i64, ok, err, push_cell,
  fill_column,
}

-- The reading of such a column by definition level: 0 is null, and 1 takes the next value.
unfoldable pub read_levels : {A : Type 0} → List ℕ → List A → List (Option A)
read_levels [] vals = []
read_levels (zero ∷ levels) vals = none ∷ read_levels levels vals
read_levels (suc n ∷ levels) [] = none ∷ read_levels levels []
read_levels (suc n ∷ levels) (v ∷ vals) = some v ∷ read_levels levels vals

abbrev pub held : {A : Type 0} → Cell A → Option A
held (value a) = some a
held empty = none
held (out_of_range v) = none

-- What `fill_column` has done if it succeeded, and why it failed if it did not.
abbrev pub Filled : {A : Type 0} → (Row → Cell A) → List Row → ParquetResult (Column A) → Type 0
Filled cell rows (ok c) =
    (read_levels c.def_levels c.vals ≡ map (λ r. held (cell r)) rows)
    × (length c.def_levels ≡ length rows)
Filled cell rows (err e) = (r : Row) × (v : ℕ) × (cell r ≡ out_of_range v) × (e ≡ u64_exceeds_i64 v)

push_cell-Filled :
    {A : Type 0} (cell : Row → Cell A) (row : Row) (rows : List Row) (c : Cell A)
    (rest : ParquetResult (Column A))
    → cell row ≡ c
    → Filled cell rows rest
    → Filled cell (row ∷ rows) (push_cell c rest)
unfolding read_levels
push_cell-Filled cell row rows (value a) (ok c) e h = (rw (e, h.0), omega (arith, h.1))
push_cell-Filled cell row rows (value a) (err x) e h = h
push_cell-Filled cell row rows empty (ok c) e h = (rw (e, h.0), omega (arith, h.1))
push_cell-Filled cell row rows empty (err x) e h = h
push_cell-Filled cell row rows (out_of_range v) rest e h = (row, v, e, refl)

-- A column that was filled has a level for each row and reads back, row by row, as the cells; one
-- that was not names a number that a row holds and that is out of range.
pub fill_column-Filled :
    {A : Type 0} (cell : Row → Cell A) (rows : List Row) → Filled cell rows (fill_column cell rows)
unfolding fill_column read_levels
fill_column-Filled cell [] = (refl, refl)
fill_column-Filled cell (row ∷ rows) =
    push_cell-Filled cell row rows (cell row) (fill_column cell rows) refl
      (fill_column-Filled cell rows)

-- A column of a type other than the integers cannot fail.
pub fill_column_total :
    {A : Type 0} (cell : Row → Cell A) (rows : List Row)
    → ((r : Row) (v : ℕ) → cell r ≢ out_of_range v)
    → (c : Column A) × (fill_column cell rows ≡ ok c)
fill_column_total cell rows safe = go (fill_column cell rows) (fill_column-Filled cell rows) refl
  where
    go :
        (res : ParquetResult (Column _))
        → Filled cell rows res
        → fill_column cell rows ≡ res
        → (c : Column _) × (fill_column cell rows ≡ ok c)
    go (ok c) f e = (c, e)
    go (err x) (r, v, e, _) g = absurd (safe r v e)
