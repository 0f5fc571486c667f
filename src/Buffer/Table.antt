-- ===== src/Buffer/Table.antt =====
-- buffer/chunk.rs: a table, with its chunks in ascending order of their times.
pub mod Order
use iedb_agent.Base.{ℕ, zero, suc, ◌+◌, ◌%◌, List, [], ◌∷◌, Option, none, some, if◌then◌else◌}
use iedb_agent.Base.Int.{ℤ, ltb_ℤ, eqb_ℤ}
use iedb_agent.Base.Text.{Str}
use iedb_agent.Buffer.Schema
use iedb_agent.Buffer.Schema.{TableSchema}
use iedb_agent.Buffer.Chunk
use iedb_agent.Buffer.Chunk.{Chunk, index_tags}

pub record Table : Type 0 where
  pub name : Str
  pub schema : TableSchema
  pub chunks : List Chunk

abbrev pub new : Str → Table
new name = record { name = name; schema = Schema.new; chunks = [] }

-- What `binary_search_by` returns: `Ok` with the index of a match, or `Err` with the index at which
-- the item belongs.
pub data Search : Type 0 where
  found : ℕ → Search
  missing : ℕ → Search

abbrev pub shift : Search → Search
shift (found i) = found (suc i)
shift (missing i) = missing (suc i)

-- The answer that the standard library documents for a sorted vector.
pub binary_search : ℤ → List Chunk → Search
binary_search t [] = missing 0
binary_search t (c ∷ cs) =
    let rest = shift (binary_search t cs) in
    if eqb_ℤ c.chunk_time t then found 0 else if ltb_ℤ t c.chunk_time then missing 0 else rest

-- `&mut chunks[i]`, changed by `f`
pub modify_at {ℓ} : {A : Type ℓ} → ℕ → (A → A) → List A → List A
modify_at i f [] = []
modify_at zero f (x ∷ xs) = f x ∷ xs
modify_at (suc i) f (x ∷ xs) = x ∷ modify_at i f xs

-- `Vec::insert`
pub insert_at {ℓ} : {A : Type ℓ} → ℕ → A → List A → List A
insert_at zero a xs = a ∷ xs
insert_at (suc i) a [] = a ∷ []
insert_at (suc i) a (x ∷ xs) = x ∷ insert_at i a xs

pub at_search : Search → ℤ → (Chunk → Chunk) → List Chunk → List Chunk
unfolding modify_at insert_at
at_search (found i) t f cs = modify_at i f cs
at_search (missing i) t f cs = modify_at i f (insert_at i (Chunk.new t) cs)

-- The caller changes by `f` the chunk that the reference points to.
unfoldable pub get_or_create_chunk : ℤ → (Chunk → Chunk) → Table → Table
unfolding at_search binary_search
get_or_create_chunk t f table = record table {
  chunks = at_search (binary_search t table.chunks) t f table.chunks;
}

sum_sizes : ℕ → List Chunk → ℕ
sum_sizes usize_mod [] = 0
sum_sizes usize_mod (c ∷ cs) =
    (Chunk.estimated_size usize_mod c + sum_sizes usize_mod cs) % usize_mod

unfoldable pub estimated_size : ℕ → Table → ℕ
unfolding sum_sizes Chunk.estimated_size
estimated_size usize_mod table = sum_sizes usize_mod table.chunks

-- The index entries for one row of a chunk.
unfoldable pub build_tag_index : ℕ → List Str → Table → Chunk → Chunk
unfolding index_tags
build_tag_index row_idx tag_values table c = record c {
  tag_index = index_tags table.schema.tag_keys 0 tag_values row_idx c.tag_index;
}
