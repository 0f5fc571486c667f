-- ===== src/Wal/Rows.antt =====
-- wal/wal_core.rs: what inserting the rows of a batch does to one chunk.
use iedb_agent.Base.{
  ℕ, suc, ◌+◌, ◌≤◌, ◌≡◌, refl, sym, ◌∙◌, List, [], ◌∷◌, ◌++◌, arith, length, append_assoc,
  append-nil, length-append, ltb, if◌then◌else◌,
}
use iedb_agent.Base.Text.{Str}
use iedb_agent.Buffer.Chunk
use iedb_agent.Buffer.Chunk.{Row, Chunk}
use iedb_agent.Buffer.Chunk.Bounds.{
  IsBounded, insert-IsBounded, rows-insert, min_wal_seq-insert, tag_index-insert, chunk_time-insert,
}
use iedb_agent.Buffer.Tags.{IsNodup, IsExact, index_tags-IsExact, IsWithin, index_tags-IsWithin}
use iedb_agent.Wal.Apply.{insert_row, insert_rows}

module _ (keys : List Str) (seq : ℕ) where
  rows-insert_row :
      (i : ℕ) (row : Row) (c : Chunk) → (insert_row keys seq i row c).rows ≡ c.rows ++ row ∷ []
  unfolding insert_row
  rows-insert_row i row c = rows-insert row seq c

  -- The batch's rows stand behind those that were there, in their order.
  pub rows-insert_rows :
      (base idx : ℕ) (rows : List Row) (c : Chunk)
      → (insert_rows keys seq base idx rows c).rows ≡ c.rows ++ rows
  unfolding insert_rows
  rows-insert_rows base idx [] c = sym (append-nil c.rows)
  rows-insert_rows base idx (row ∷ rows) c =
      rows-insert_rows base (suc idx) rows (insert_row keys seq (base + idx) row c)
      ∙ rw (rows-insert_row (base + idx) row c) (append_assoc c.rows (row ∷ []) rows)

  pub chunk_time-insert_rows :
      (base idx : ℕ) (rows : List Row) (c : Chunk)
      → (insert_rows keys seq base idx rows c).chunk_time ≡ c.chunk_time
  unfolding insert_rows insert_row
  chunk_time-insert_rows base idx [] c = refl
  chunk_time-insert_rows base idx (row ∷ rows) c =
      chunk_time-insert_rows base (suc idx) rows (insert_row keys seq (base + idx) row c)
      ∙ chunk_time-insert row seq c

  pub insert_rows-IsBounded :
      (base idx : ℕ) (rows : List Row) (c : Chunk)
      → IsBounded c
      → IsBounded (insert_rows keys seq base idx rows c)
  unfolding insert_rows insert_row
  insert_rows-IsBounded base idx [] c h = h
  insert_rows-IsBounded base idx (row ∷ rows) c h =
      insert_rows-IsBounded base (suc idx) rows (insert_row keys seq (base + idx) row c)
        (insert-IsBounded row seq c h)

  -- The chunk's lowest WAL number does not rise, and falls to the batch's if there are rows.
  pub min_wal_seq-insert_rows :
      (base idx : ℕ) (rows : List Row) (c : Chunk)
      → (insert_rows keys seq base idx rows c).min_wal_seq ≤ c.min_wal_seq
  unfolding insert_rows insert_row
  min_wal_seq-insert_rows base idx [] c = omega arith
  min_wal_seq-insert_rows base idx (row ∷ rows) c = omega (
    arith,
    min_wal_seq-insert row seq c,
    min_wal_seq-insert_rows base (suc idx) rows (insert_row keys seq (base + idx) row c),
  )

  pub insert_rows-IsExact :
      (base idx : ℕ) (rows : List Row) (c : Chunk)
      → IsNodup keys
      → base + idx ≡ length c.rows
      → IsExact keys c.rows c.tag_index
      → let c' = insert_rows keys seq base idx rows c in IsExact keys c'.rows c'.tag_index
  unfolding insert_rows
  insert_rows-IsExact base idx [] c nodup e h = h
  insert_rows-IsExact base idx (row ∷ rows) c nodup e h =
      insert_rows-IsExact base (suc idx) rows (insert_row keys seq (base + idx) row c) nodup
        (rw (rows-insert_row (base + idx) row c, length-append c.rows (row ∷ [])) (omega arith))
        (unfold insert_row in
          rw (rows-insert row seq c, tag_index-insert row seq c)
            (index_tags-IsExact keys c.rows row (base + idx) c.tag_index nodup e h))

  -- Whatever the keys and the rows, the index lists rows that are there.
  pub insert_rows-IsWithin :
      (base idx : ℕ) (rows : List Row) (c : Chunk)
      → base + idx ≡ length c.rows
      → IsWithin c.rows c.tag_index
      → let c' = insert_rows keys seq base idx rows c in IsWithin c'.rows c'.tag_index
  unfolding insert_rows
  insert_rows-IsWithin base idx [] c e h = h
  insert_rows-IsWithin base idx (row ∷ rows) c e h =
      insert_rows-IsWithin base (suc idx) rows (insert_row keys seq (base + idx) row c)
        (rw (rows-insert_row (base + idx) row c, length-append c.rows (row ∷ [])) (omega arith))
        (unfold insert_row in
          rw (rows-insert row seq c, tag_index-insert row seq c)
            (index_tags-IsWithin keys c.rows row (base + idx) c.tag_index e h))

-- The lowest WAL number of a chunk after a batch from file `seq`.
abbrev pub least : ℕ → List Row → ℕ → ℕ
least seq [] m = m
least seq (row ∷ rows) m = if ltb seq m then seq else m

min_wal_seq-insert_row :
    (keys : List Str) (seq i : ℕ) (row : Row) (c : Chunk)
    → (insert_row keys seq i row c).min_wal_seq
      ≡ (if ltb seq c.min_wal_seq then seq else c.min_wal_seq)
unfolding insert_row Chunk.insert
min_wal_seq-insert_row keys seq i row c = refl

pub insert_rows-least :
    (keys : List Str) (seq base idx : ℕ) (rows : List Row) (c : Chunk)
    → (insert_rows keys seq base idx rows c).min_wal_seq ≡ least seq rows c.min_wal_seq
unfolding insert_rows
insert_rows-least keys seq base idx [] c = refl
insert_rows-least keys seq base idx (row ∷ []) c =
    min_wal_seq-insert_row keys seq (base + idx) row c
insert_rows-least keys seq base idx (row ∷ r ∷ rows) c =
    insert_rows-least keys seq base (suc idx) (r ∷ rows) (insert_row keys seq (base + idx) row c)
    ∙ ground (arith, min_wal_seq-insert_row keys seq (base + idx) row c)
