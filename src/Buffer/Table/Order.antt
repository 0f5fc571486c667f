-- ===== src/Buffer/Table/Order.antt =====
-- buffer/chunk.rs: the order of the chunks of a table, and their search.
use iedb_agent.Base.{
  ◌≡◌, ◌≢◌, refl, List, [], ◌∷◌, Option, none, some, arith, if◌then◌else◌, All, find_by, Bool-cases,
  inl, inr,
}
use iedb_agent.Base.Int.{ℤ, ltb_ℤ, eqb_ℤ, eqb_ℤ_iff, ◌<ℤ◌, eq_of_parts}
use iedb_agent.Buffer.Chunk
use iedb_agent.Buffer.Chunk.{Chunk}
use iedb_agent.Buffer.Table.{
  Table, Search, found, missing, shift, binary_search, at_search, get_or_create_chunk,
}

-- The search and the change in one pass.
unfoldable pub place : ℤ → (Chunk → Chunk) → List Chunk → List Chunk
place t f [] = f (Chunk.new t) ∷ []
place t f (c ∷ cs) =
    if eqb_ℤ c.chunk_time t
    then f c ∷ cs
    else if ltb_ℤ t c.chunk_time
    then f (Chunk.new t) ∷ c ∷ cs
    else c ∷ place t f cs

at_search-shift :
    (s : Search) (t : ℤ) (f : Chunk → Chunk) (c : Chunk) (cs : List Chunk)
    → at_search (shift s) t f (c ∷ cs) ≡ c ∷ at_search s t f cs
unfolding at_search
at_search-shift (found i) t f c cs = refl
at_search-shift (missing i) t f c cs = refl

at_search-place :
    (t : ℤ) (f : Chunk → Chunk) (cs : List Chunk)
    → at_search (binary_search t cs) t f cs ≡ place t f cs
unfolding at_search binary_search place
at_search-place t f [] = refl
at_search-place t f (c ∷ cs) =
    ground (arith, at_search-shift (binary_search t cs) t f c cs, at_search-place t f cs)

pub chunks-get_or_create_chunk :
    (t : ℤ) (f : Chunk → Chunk) (table : Table)
    → (get_or_create_chunk t f table).chunks ≡ place t f table.chunks
unfolding get_or_create_chunk
chunks-get_or_create_chunk t f table = at_search-place t f table.chunks

-- Each chunk's time is below those of all that follow.
abbrev pub Below : ℤ → List Chunk → Type 0
Below t cs = All (λ (c : Chunk). t <ℤ c.chunk_time) cs

abbrev pub IsSorted : List Chunk → Type 0
IsSorted [] = Unit
IsSorted (c ∷ cs) = Below c.chunk_time cs × IsSorted cs

Below-trans : (s t : ℤ) (cs : List Chunk) → s <ℤ t → Below t cs → Below s cs
Below-trans s t [] h b = tt
Below-trans s t (c ∷ cs) h b = (omega arith, Below-trans s t cs h b.1)

-- A change that keeps the chunk's own time.
abbrev pub KeepsTime : (Chunk → Chunk) → Type 0
KeepsTime f = (c : Chunk) → (f c).chunk_time ≡ c.chunk_time

module _ (t : ℤ) (f : Chunk → Chunk) (keeps : KeepsTime f) where
  place-Below : (s : ℤ) (cs : List Chunk) → s <ℤ t → Below s cs → Below s (place t f cs)
  unfolding place
  place-Below s [] h b = (rw (keeps (Chunk.new t)) h, tt)
  place-Below s (c ∷ cs) h b = ground (arith, keeps c, keeps (Chunk.new t), place-Below s cs h b.1)

  pub place-IsSorted : (cs : List Chunk) → IsSorted cs → IsSorted (place t f cs)
  unfolding place
  place-IsSorted [] h = (tt, tt)
  place-IsSorted (c ∷ cs) h = ground (
    arith,
    keeps c,
    keeps (Chunk.new t),
    eqb_ℤ_iff c.chunk_time t,
    eq_of_parts c.chunk_time t,
    Below-trans t c.chunk_time cs,
    place-Below c.chunk_time cs,
    place-IsSorted cs h.1,
  )

abbrev pub find_chunk : ℤ → List Chunk → Option Chunk
find_chunk t cs = find_by (λ c. eqb_ℤ c.chunk_time t) cs

abbrev pub chunk_or_new : ℤ → Option Chunk → Chunk
chunk_or_new t none = Chunk.new t
chunk_or_new t (some c) = c

find_chunk-none : (t : ℤ) (cs : List Chunk) → Below t cs → find_chunk t cs ≡ none
find_chunk-none t [] b = refl
find_chunk-none t (c ∷ cs) b = ground (arith, find_chunk-none t cs b.1)

module _ (t : ℤ) (f : Chunk → Chunk) (keeps : KeepsTime f) where
  -- After the change the search at `t` finds the chunk changed, new if there was none.
  pub find_chunk-place_self :
      (cs : List Chunk)
      → IsSorted cs
      → find_chunk t (place t f cs) ≡ some (f (chunk_or_new t (find_chunk t cs)))
  unfolding place
  find_chunk-place_self [] h = ground (arith, keeps (Chunk.new t))
  find_chunk-place_self (c ∷ cs) h = ground (
    arith,
    keeps c,
    keeps (Chunk.new t),
    Below-trans t c.chunk_time cs,
    find_chunk-none t cs,
    find_chunk-place_self cs h.1,
  )

  -- The search at any other time finds what it found before.
  pub find_chunk-place_ne :
      (s : ℤ) (cs : List Chunk) → s ≢ t → find_chunk s (place t f cs) ≡ find_chunk s cs
  unfolding place
  find_chunk-place_ne s [] ne = ground (arith, keeps (Chunk.new t), eq_of_parts s t)
  find_chunk-place_ne s (c ∷ cs) ne =
      ground (arith, keeps c, keeps (Chunk.new t), eq_of_parts s t, find_chunk-place_ne s cs ne)

-- A property of every chunk is kept if the change keeps it, also on a new chunk.
pub place-All {κ} :
    (P : Chunk → Type κ) (t : ℤ) (f : Chunk → Chunk)
    → P (f (Chunk.new t))
    → ((c : Chunk) → P c → P (f c))
    → (cs : List Chunk) → All P cs
    → All P (place t f cs)
unfolding place
place-All P t f new keep [] h = (new, tt)
place-All P t f new keep (c ∷ cs) h = elim (Bool-cases (eqb_ℤ c.chunk_time t)) [
  | inl same ↦ rw same (keep c h.0, h.1)
  | inr other ↦ rw other (elim (Bool-cases (ltb_ℤ t c.chunk_time)) [
    | inl before ↦ rw before (new, h)
    | inr after ↦ rw after (h.0, place-All P t f new keep cs h.1)
  ])
]
