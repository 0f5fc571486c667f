-- ===== src/Buffer/Chunk/Bounds.antt =====
-- buffer/chunk.rs: the bounds of a chunk on the times of its rows and on their WAL files.
use iedb_agent.Base.{ℕ, ◌≤◌, ◌≡◌, refl, [], ◌∷◌, ◌++◌, arith, All, All-append, All-map}
use iedb_agent.Base.Int.{ℤ, ◌≤ℤ◌}
use iedb_agent.Buffer.Chunk.{Row, Chunk, insert}

-- A row's time lies between two times.
pub record Within (lo hi : ℤ) (r : Row) : Type 0 where
  pub above : lo ≤ℤ r.time
  pub below : r.time ≤ℤ hi

abbrev pub IsBounded : Chunk → Type 0
IsBounded c = All (Within c.time_min c.time_max) c.rows

Within-widen :
    (lo hi lo' hi' : ℤ) → lo' ≤ℤ lo → hi ≤ℤ hi' → (r : Row) → Within lo hi r → Within lo' hi' r
Within-widen lo hi lo' hi' l h r w = omega arith

module _ (row : Row) (seq : ℕ) (c : Chunk) where
  time_min-insert : (insert row seq c).time_min ≤ℤ c.time_min
  unfolding insert
  time_min-insert = ground arith

  time_max-insert : c.time_max ≤ℤ (insert row seq c).time_max
  unfolding insert
  time_max-insert = ground arith

  insert-Within : Within (insert row seq c).time_min (insert row seq c).time_max row
  unfolding insert
  insert-Within = ground arith

  pub rows-insert : (insert row seq c).rows ≡ c.rows ++ row ∷ []
  unfolding insert
  rows-insert = ground arith

  -- Every row stays within the chunk's time bounds when one more is inserted.
  pub insert-IsBounded : IsBounded c → IsBounded (insert row seq c)
  insert-IsBounded h = rw rows-insert (
      All-append (Within (insert row seq c).time_min (insert row seq c).time_max) c.rows (row ∷ [])
        (All-map _ _ (Within-widen _ _ _ _ time_min-insert time_max-insert) c.rows h)
        (insert-Within, tt))

  pub min_wal_seq-insert :
      ((insert row seq c).min_wal_seq ≤ seq) × ((insert row seq c).min_wal_seq ≤ c.min_wal_seq)
  unfolding insert
  min_wal_seq-insert = ground arith

  pub tag_index-insert : (insert row seq c).tag_index ≡ c.tag_index
  unfolding insert
  tag_index-insert = refl

  pub chunk_time-insert : (insert row seq c).chunk_time ≡ c.chunk_time
  unfolding insert
  chunk_time-insert = refl
