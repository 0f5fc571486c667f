-- ===== src/Tests/Files.antt =====
-- Parquet files and their staging at concrete inputs.
use iedb_agent.Base.{◌≡◌, ◌↔◌, refl, [], ◌∷◌}
use iedb_agent.Base.Int.{ℤ, pos}
use iedb_agent.Base.Text.{Str, codes}
use iedb_agent.Buffer.Chunk.{Row}
use iedb_agent.Base.{List, map, length}
use iedb_agent.Flush.Parquet.Types.{physical, height, declared_types, columns_of-declared}
use iedb_agent.Flush.Parquet.{
  AnyColumn, times, strings, ints, columns_of, ok, Cell, value, fill_column, merged_rows,
}
use iedb_agent.Flush.Parquet.Columns.{Filled, fill_column-Filled}
use iedb_agent.Flush.Parquet.Merge.{
  IsChronological, HasPoint, HasPointIn, merged_rows-IsChronological, HasPoint-merged_rows,
}
use iedb_agent.Flush.Upload.Staging.{PathParts, StagedFile}
use iedb_agent.Base.{All}
use iedb_agent.Tests.Data.{full_chunk, full_table, first_row, second_row}

merged_rows-IsChronological_example : IsChronological (merged_rows (full_chunk ∷ full_chunk ∷ []))
merged_rows-IsChronological_example = merged_rows-IsChronological (full_chunk ∷ full_chunk ∷ [])

HasPoint-merged_rows_example :
    HasPoint (pos 1500000) (codes "a" ∷ []) (merged_rows (full_chunk ∷ full_chunk ∷ []))
    ↔ HasPointIn (pos 1500000) (codes "a" ∷ []) (full_chunk ∷ full_chunk ∷ [])
HasPoint-merged_rows_example =
    HasPoint-merged_rows (pos 1500000) (codes "a" ∷ []) (full_chunk ∷ full_chunk ∷ [])

abbrev time_cell : Row → Cell ℤ
time_cell row = value row.time

fill_column-Filled_example :
    Filled time_cell
      (first_row ∷ second_row ∷ [])
      (fill_column time_cell (first_row ∷ second_row ∷ []))
fill_column-Filled_example = fill_column-Filled time_cell (first_row ∷ second_row ∷ [])

abbrev two_columns : List AnyColumn
two_columns =
    times (pos 1500000 ∷ pos 1600000 ∷ [])
    ∷ strings (record { vals = codes "a" ∷ codes "b" ∷ []; def_levels = 1 ∷ 1 ∷ [] })
    ∷ ints (record { vals = pos 20 ∷ pos 21 ∷ []; def_levels = 1 ∷ 1 ∷ [] })
    ∷ []

filled : columns_of full_table.schema full_chunk.rows ≡ ok two_columns
unfolding columns_of
filled = refl

columns_of-declared_example :
    (map physical two_columns ≡ declared_types full_table.schema)
    × All (λ c. height c ≡ length full_chunk.rows) two_columns
columns_of-declared_example =
    columns_of-declared full_chunk.rows full_table.schema two_columns filled

abbrev other : StagedFile
other = record { path = codes "x.parquet" ∷ codes "temp" ∷ []; bytes = 3 ∷ [] }

abbrev first_part : PathParts → Str
first_part [] = []
first_part (part ∷ parts) = part
