-- ===== src/Flush/Snapshot/Selected.antt =====
-- flush/scheduler.rs: what a snapshot selects.
use iedb_agent.Base.{◌≢◌, List, [], ◌∷◌, arith, is_empty, All, All-append, if◌then◌else◌}
use iedb_agent.Base.Int.{ℤ, ◌<ℤ◌}
use iedb_agent.Base.Text.{Str}
use iedb_agent.Base.Dict.{Dict}
use iedb_agent.Buffer.Chunk.{Chunk}
use iedb_agent.Buffer.Table.{Table}
use iedb_agent.Flush.Snapshot.{Selection, chunk_times_below, select_tables, chunks_to_flush}

abbrev pub IsOld : ℤ → Selection → Type 0
IsOld marker sel = (sel.chunk_times ≢ []) × All (λ t. t <ℤ marker) sel.chunk_times

chunk_times_below-All :
    (marker : ℤ) (cs : List Chunk) → All (λ t. t <ℤ marker) (chunk_times_below marker cs)
unfolding chunk_times_below
chunk_times_below-All marker [] = tt
chunk_times_below-All marker (c ∷ cs) = ground (arith, chunk_times_below-All marker cs)

select_tables-IsOld :
    (marker : ℤ) (db : Str) (ts : Dict Table) → All (IsOld marker) (select_tables marker db ts)
unfolding select_tables
select_tables-IsOld marker db [] = tt
select_tables-IsOld marker db ((name, t) ∷ ts) =
    selected (chunk_times_below marker t.chunks) (chunk_times_below-All marker t.chunks)
      (select_tables-IsOld marker db ts)
  where
    selected :
        (times : List ℤ)
        → All (λ t. t <ℤ marker) times
        → All (IsOld marker) (select_tables marker db ts)
        → All (IsOld marker) (
            if is_empty times
            then select_tables marker db ts
            else record { db_name = db; table_name = name; chunk_times = times }
              ∷ select_tables marker db ts)
    selected [] h rest = rest
    selected (s ∷ times) h rest = (((λ e. cc), h), rest)

-- Every selection of a snapshot names at least one chunk time, and all its chunk times are before
-- the marker.
pub chunks_to_flush-IsOld :
    (marker : ℤ) (dbs : Dict (Dict Table)) → All (IsOld marker) (chunks_to_flush marker dbs)
unfolding chunks_to_flush
chunks_to_flush-IsOld marker [] = tt
chunks_to_flush-IsOld marker ((db, ts) ∷ dbs) =
    All-append (IsOld marker) (select_tables marker db ts) (chunks_to_flush marker dbs)
      (select_tables-IsOld marker db ts) (chunks_to_flush-IsOld marker dbs)
