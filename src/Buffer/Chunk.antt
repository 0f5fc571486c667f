-- ===== src/Buffer/Chunk.antt =====
-- buffer/chunk.rs: rows, and the chunk that holds the rows of one period with their tag index.
pub mod Bounds
use iedb_agent.Base.{
  ℕ, suc, ◌+◌, ◌*◌, ◌%◌, max, Bool, List, [], ◌∷◌, ◌++◌, Option, none, some, length, get_elem?,
  is_empty, ltb, if◌then◌else◌,
}
use iedb_agent.Base.Int.{ℤ, i64_max, i64_min, u64_max, ltb_ℤ}
use iedb_agent.Base.Text.{Str}
use iedb_agent.Base.Dict.{Dict, update}
use iedb_agent.Buffer.Schema.{FieldValue}

pub record Row : Type 0 where
  pub time : ℤ
  pub tag_values : List Str
  pub field_values : List (Option FieldValue)

-- tag key => tag value => indices of rows
abbrev pub TagIndex : Type 0
TagIndex = Dict (Dict (List ℕ))

pub record Chunk : Type 0 where
  pub chunk_time : ℤ
  pub rows : List Row
  pub tag_index : TagIndex
  pub time_min : ℤ
  pub time_max : ℤ
  pub avg_row_bytes : ℕ
  pub min_wal_seq : ℕ
  pub max_wal_seq : ℕ

abbrev pub new : ℤ → Chunk
new chunk_time = record {
  chunk_time = chunk_time;
  rows = [];
  tag_index = [];
  time_min = i64_max;
  time_max = i64_min;
  avg_row_bytes = 0;
  min_wal_seq = u64_max;
  max_wal_seq = 0;
}

-- The product wraps at the machine's `usize`, `usize_mod` = 2^32 or 2^64.
unfoldable pub estimated_size : ℕ → Chunk → ℕ
estimated_size usize_mod c = (length c.rows * max c.avg_row_bytes 64) % usize_mod

unfoldable pub insert : Row → ℕ → Chunk → Chunk
insert row wal_seq c = record c {
  time_min = if ltb_ℤ row.time c.time_min then row.time else c.time_min;
  time_max = if ltb_ℤ c.time_max row.time then row.time else c.time_max;
  min_wal_seq = if ltb wal_seq c.min_wal_seq then wal_seq else c.min_wal_seq;
  max_wal_seq = if ltb c.max_wal_seq wal_seq then wal_seq else c.max_wal_seq;
  rows = c.rows ++ row ∷ [];
}

unfoldable pub row_count : Chunk → ℕ
row_count c = length c.rows

unfoldable pub has_no_rows : Chunk → Bool
has_no_rows c = is_empty c.rows

-- `entry(key).or_default().entry(value).or_default().push(row_idx)`
unfoldable pub index_push : Str → Str → ℕ → TagIndex → TagIndex
unfolding update
index_push key value row_idx index =
    update key [] (λ values. update value [] (λ rows. rows ++ row_idx ∷ []) values) index

index_value : Str → Option Str → ℕ → TagIndex → TagIndex
index_value key none row_idx index = index
index_value key (some value) row_idx index = index_push key value row_idx index

-- The loop over the tag keys, `key_idx` the index of the first of them.
unfoldable pub index_tags : List Str → ℕ → List Str → ℕ → TagIndex → TagIndex
unfolding index_value index_push
index_tags [] key_idx tag_values row_idx index = index
index_tags (key ∷ keys) key_idx tag_values row_idx index =
    index_tags keys (suc key_idx) tag_values row_idx
      (index_value key (get_elem? tag_values key_idx) row_idx index)
