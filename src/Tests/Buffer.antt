-- ===== src/Tests/Buffer.antt =====
-- The buffer at concrete inputs.
use iedb_agent.Base.{◌≡◌, List, [], ◌∷◌, ◌++◌, none, some, arith, All, All-map}
use iedb_agent.Base.Int.{pos}
use iedb_agent.Base.Text.{codes, str_eq}
use iedb_agent.Buffer
use iedb_agent.Buffer.{get_table, get_or_create_table, table_or_new, get_table-get_or_create_table}
use iedb_agent.Buffer.Chunk.{Chunk}
use iedb_agent.Buffer.Schema.{ensure_tag_key, ensure_field, position}
use iedb_agent.Buffer.Table
use iedb_agent.Buffer.Table.{Table}
use iedb_agent.Buffer.Tags.{IsExact}
use iedb_agent.Buffer.Query.{QueryRow, query_table}
use iedb_agent.Buffer.Query.Scan.{tag_matches, IsScan, rows_of_chunks, query_table-IsScan}
use iedb_agent.Wal.{write}
use iedb_agent.Wal.Apply.{
  register_tags, register_fields, register_field, column_type, apply_to_table, apply_ops,
}
use iedb_agent.Wal.Valid.{Fits, IsValidChunk, IsValidTable, apply_to_table-IsValidTable}
use iedb_agent.Wal.Contents.{rows_in, logged, new-IsSafe, rows_in-apply_ops}
use iedb_agent.Tests.Data.{batch, json}

empty_table-IsValid : IsValidTable (Table.new (codes "temp"))
empty_table-IsValid = record { sorted = tt; nodup = tt; chunks = tt }

batch-Fits : Fits batch (Table.new (codes "temp"))
unfolding register_tags register_fields register_field column_type ensure_tag_key ensure_field
    position str_eq
batch-Fits = (omega arith, (omega arith, tt))

apply_to_table-IsValidTable_example :
    IsValidTable (apply_to_table batch 1 (Table.new (codes "temp")))
apply_to_table-IsValidTable_example =
    apply_to_table-IsValidTable batch 1 (Table.new (codes "temp")) batch-Fits empty_table-IsValid

filled-IsValid : IsValidTable (apply_to_table batch 1 (Table.new (codes "temp")))
filled-IsValid =
    apply_to_table-IsValidTable batch 1 (Table.new (codes "temp")) batch-Fits empty_table-IsValid

filled-IsExact :
    let t = apply_to_table batch 1 (Table.new (codes "temp")) in
    All (λ (c : Chunk). IsExact t.schema.tag_keys c.rows c.tag_index) t.chunks
filled-IsExact =
    let t = apply_to_table batch 1 (Table.new (codes "temp")) in
    All-map (IsValidChunk t.schema.tag_keys) (λ c. IsExact t.schema.tag_keys c.rows c.tag_index)
      (λ c h. h.exact) t.chunks filled-IsValid.chunks

query_table-IsScan_example :
    let t = apply_to_table batch 1 (Table.new (codes "temp")) in
    (out : List (QueryRow json)) × (query_table json t
        (some (pos 0))
        none
        (some (codes "host"))
        (some (codes "a"))
      ≡ some out)
    × IsScan json t.schema
        (some (pos 0))
        none
        (tag_matches t.schema.tag_keys (some (codes "host")) (some (codes "a")))
        (rows_of_chunks t.chunks)
        out
query_table-IsScan_example =
    query_table-IsScan json (some (pos 0)) none (some (codes "host")) (some (codes "a"))
      (apply_to_table batch 1 (Table.new (codes "temp"))) filled-IsExact

rows_in-apply_ops_example :
    rows_in
      (codes "plant")
      (codes "temp")
      (pos 1000000000)
      (apply_ops 1 (write batch ∷ []) Buffer.new)
    ≡ rows_in (codes "plant") (codes "temp") (pos 1000000000) Buffer.new
      ++ logged (codes "plant") (codes "temp") (pos 1000000000) (write batch ∷ [])
rows_in-apply_ops_example =
    rows_in-apply_ops (codes "plant") (codes "temp") (pos 1000000000) 1 (write batch ∷ [])
      Buffer.new new-IsSafe
