-- ===== src/Tests/Http.antt =====
-- The handlers at concrete inputs.
use iedb_agent.Base.{
  ℕ, ◌+◌, ◌%◌, ◌≤◌, ◌<◌, ◌≡◌, refl, List, [], ◌∷◌, some, arith, leb, if◌then◌else◌,
}
use iedb_agent.Base.Int.{ℤ, pos, div_i64, quot}
use iedb_agent.Base.Text.{codes}
use iedb_agent.Buffer.Chunk.{Row}
use iedb_agent.Wal.Manager.{done, failed, buffer_full}
use iedb_agent.Http.Write.Batches.{chunk_time_of, group_rows, group_rows_from, group_push}
use iedb_agent.Http.Write.Batches.Groups.{
  chunk_time_bounds, IsAscending, rows_at, rows_of, group_rows_lem,
}
use iedb_agent.Http.{Request}
use iedb_agent.Http.Write.Handler.Refused.{IsHarmless, handle-IsHarmless}
use iedb_agent.Http.Write.Handler.{buffer_all, handle}
use iedb_agent.Http.Write.Handler.Durable.{with_pending, buffer_all_lem}
use iedb_agent.Tests.Codec.{test_codec}
use iedb_agent.Tests.Data.{
  batch, first_row, second_row, first_wal, surroundings, full_node, config, request,
}

chunk_time_bounds_example :
    (c : ℕ) × (chunk_time_of (pos 1000000000) first_row ≡ some (pos c))
    × (c % 1000000000 ≡ 0)
    × (c ≤ 1500000000)
    × (1500000000 < c + 1000000000)
chunk_time_bounds_example = chunk_time_bounds 1500000000 1000000000 first_row refl (omega arith)

abbrev two_groups : List (ℤ × List Row)
two_groups = (pos 1500000000, first_row ∷ []) ∷ (pos 1600000000, second_row ∷ []) ∷ []

grouped : group_rows (pos 100000000) (second_row ∷ first_row ∷ []) ≡ some two_groups
unfolding group_rows group_rows_from group_push chunk_time_of div_i64 quot
grouped = refl

group_rows_lem_example :
    IsAscending two_groups
    × ((s : ℤ) → rows_at s two_groups ≡ rows_of (pos 100000000) s (second_row ∷ first_row ∷ []))
group_rows_lem_example =
    group_rows_lem (pos 100000000) (second_row ∷ first_row ∷ []) two_groups grouped

-- A manager with room for one operation gets two.
buffer_all_lem_example :
    let wal = record first_wal { op_limit = 1 } in
    buffer_all (batch ∷ batch ∷ []) wal ≡ (
      if leb 2 1
      then (done tt, with_pending (batch ∷ batch ∷ []) wal)
      else (failed (buffer_full 1), with_pending (batch ∷ []) wal))
buffer_all_lem_example =
    buffer_all_lem (batch ∷ batch ∷ []) (record first_wal { op_limit = 1 }) (omega arith)

-- A request with a longer body than the configuration allows.
abbrev long_request : Request
long_request = record request { content_length = some (codes "5000") }

handle-IsHarmless_example :
    IsHarmless full_node (handle test_codec surroundings config long_request full_node)
handle-IsHarmless_example =
    handle-IsHarmless test_codec surroundings tt full_node config long_request
