-- ===== src/Http/Write/Batches.antt =====
-- http/write.rs: the rows of a request grouped by period, a batch for each table and period.
pub mod Groups
use iedb_agent.Base.{
  ℕ, ◌+◌, ◌≡◌, List, [], ◌∷◌, ◌++◌, map, Option, none, some, length, foldl, if◌then◌else◌,
}
use iedb_agent.Base.Int.{ℤ, pos, ltb_ℤ, eqb_ℤ, ◌*ℤ◌, div_i64, saturate_i64}
use iedb_agent.Base.Text.{Str}
use iedb_agent.Base.Dict.{Dict}
use iedb_agent.Buffer.Chunk.{Row}
use iedb_agent.Wal.{WriteBatch}
use iedb_agent.Http.Write.{TableRows}

-- `snapshot_interval_secs().saturating_mul(1_000_000_000)`
unfoldable pub interval_ns : ℤ → ℤ
unfolding saturate_i64 ◌*ℤ◌
interval_ns snapshot_interval_secs = saturate_i64 (snapshot_interval_secs *ℤ pos 1000000000)

abbrev pub times : Option ℤ → ℤ → Option ℤ
times none b = none
times (some a) b = some (a *ℤ b)

-- `(row.time / interval) * interval`: `none` is a panic. The product is no larger than the time.
unfoldable pub chunk_time_of : ℤ → Row → Option ℤ
unfolding div_i64 ◌*ℤ◌
chunk_time_of snapshot_interval_ns row =
    times (div_i64 row.time snapshot_interval_ns) snapshot_interval_ns

-- `grouped.entry(chunk_time).or_default().push(row)`, a `BTreeMap` being a list in ascending order.
unfoldable pub group_push : ℤ → Row → List (ℤ × List Row) → List (ℤ × List Row)
group_push t row [] = (t, row ∷ []) ∷ []
group_push t row ((s, rows) ∷ groups) =
    if eqb_ℤ s t
    then (s, rows ++ row ∷ []) ∷ groups
    else if ltb_ℤ t s
    then (t, row ∷ []) ∷ (s, rows) ∷ groups
    else (s, rows) ∷ group_push t row groups

abbrev pub group_at : Option ℤ → Row → List (ℤ × List Row) → Option (List (ℤ × List Row))
group_at none row groups = none
group_at (some t) row groups = some (group_push t row groups)

unfoldable pub group_rows_from :
    ℤ → List Row → Option (List (ℤ × List Row)) → Option (List (ℤ × List Row))
unfolding chunk_time_of group_push
group_rows_from interval [] groups = groups
group_rows_from interval (row ∷ rows) none = none
group_rows_from interval (row ∷ rows) (some groups) =
    group_rows_from interval rows (group_at (chunk_time_of interval row) row groups)

unfoldable pub group_rows : ℤ → List Row → Option (List (ℤ × List Row))
unfolding group_rows_from
group_rows interval rows = group_rows_from interval rows (some [])

unfoldable pub batch_of : Str → Str → TableRows → ℤ × List Row → WriteBatch
batch_of db table_name t (chunk_time, chunk_rows) = record {
  db_name = db;
  table_name = table_name;
  chunk_time = chunk_time;
  field_names = t.field_names;
  tag_keys = t.tag_keys;
  rows = chunk_rows;
}

abbrev pub append_batches :
    (ℤ × List Row → WriteBatch)
    → Option (List (ℤ × List Row))
    → Option (List WriteBatch)
    → Option (List WriteBatch)
append_batches make (some groups) (some rest) = some (map make groups ++ rest)
append_batches make (some groups) none = none
append_batches make none rest = none

unfoldable pub batches_of : ℤ → Str → Dict TableRows → Option (List WriteBatch)
unfolding group_rows batch_of
batches_of interval db [] = some []
batches_of interval db ((table_name, t) ∷ tables) =
    append_batches (batch_of db table_name t) (group_rows interval t.rows)
      (batches_of interval db tables)

-- `total_rows`
unfoldable pub total_rows : List WriteBatch → ℕ
total_rows [] = 0
total_rows (b ∷ bs) = length b.rows + total_rows bs
