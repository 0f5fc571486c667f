-- ===== src/Flush/Snapshot/Removed.antt =====
-- flush/scheduler.rs: the chunks that are cloned, and those that are removed.
use iedb_agent.Base.{
  ◌≡◌, ◌≢◌, ◌⊎◌, ◌↔◌, refl, ap, ◌∙◌, not, true, ◌&&◌, List, [], ◌∷◌, Option, none, some, arith, All,
  filter_by, if◌then◌else◌, Bool-cases, inl, inr,
}
use iedb_agent.Base.Int.{ℤ, eqb_ℤ, eqb_ℤ_iff}
use iedb_agent.Base.Text.{Str, str_eq, str_eq_iff}
use iedb_agent.Buffer.{Buffer, get_table, get_table_mut, changed, get_table-get_table_mut}
use iedb_agent.Buffer.Chunk.{Chunk}
use iedb_agent.Buffer.Table.{Table}
use iedb_agent.Buffer.Table.Order.{find_chunk}
use iedb_agent.Flush.Snapshot.{Selection, cloned_chunks, has_time, retain_others}

-- Of the chunks, those with a selected time are gone, and the others stay.
pub find_chunk-retain_others :
    (chunk_times : List ℤ) (t : ℤ) (table : Table)
    → find_chunk t (retain_others chunk_times table).chunks
      ≡ (if has_time chunk_times t then none else find_chunk t table.chunks)
unfolding retain_others
find_chunk-retain_others chunk_times t table = within table.chunks
  where
    within :
        (cs : List Chunk)
        → find_chunk t (filter_by (λ c. not (has_time chunk_times c.chunk_time)) cs)
          ≡ (if has_time chunk_times t then none else find_chunk t cs)
    within [] = ground arith
    within (c ∷ cs) = elim (Bool-cases (eqb_ℤ c.chunk_time t)) [
      | inl same ↦
          let e = (eqb_ℤ_iff c.chunk_time t).0 same in
          ground (arith, same, ap (has_time chunk_times) e, within cs)
      | inr ne ↦ ground (arith, ne, within cs)
    ]

abbrev pub IsOneOf : ℤ → List ℤ → Type 0
IsOneOf t [] = ⊥
IsOneOf t (s ∷ ts) = (s ≡ t) ⊎ IsOneOf t ts

abbrev pub HasChunk : Chunk → List Chunk → Type 0
HasChunk c [] = ⊥
HasChunk c (d ∷ cs) = (d ≡ c) ⊎ HasChunk c cs

-- For each of the times, in their order, a chunk of that time, if there is one.
pub data IsPicked (cs : List Chunk) : List ℤ → List Chunk → Type 0 where
  nothing : IsPicked cs [] []
  picked :
      {t : ℤ} {ts : List ℤ} {out : List Chunk}
      → (c : Chunk) → HasChunk c cs
      → c.chunk_time ≡ t
      → IsPicked cs ts out
      → IsPicked cs (t ∷ ts) (c ∷ out)
  missing :
      {t : ℤ} {ts : List ℤ} {out : List Chunk}
      → All (λ (c : Chunk). c.chunk_time ≢ t) cs
      → IsPicked cs ts out
      → IsPicked cs (t ∷ ts) out

found_or_missing :
    (t : ℤ) (cs : List Chunk)
    → ((find_chunk t cs ≡ none) × All (λ (c : Chunk). c.chunk_time ≢ t) cs)
      ⊎ ((c : Chunk) × (find_chunk t cs ≡ some c) × HasChunk c cs × (c.chunk_time ≡ t))
found_or_missing t [] = inl (refl, tt)
found_or_missing t (c ∷ cs) = elim (Bool-cases (eqb_ℤ c.chunk_time t)) [
  | inl same ↦ inr (c, rw same refl, inl refl, (eqb_ℤ_iff c.chunk_time t).0 same)
  | inr ne ↦
      let differs : c.chunk_time ≢ t = ground (arith, ne, eqb_ℤ_iff c.chunk_time t) in
      elim (found_or_missing t cs) [
        | inl (e, others) ↦ inl (rw ne e, (differs, others))
        | inr (d, e, here, time) ↦ inr (d, rw ne e, inr here, time)
      ]
]

pub cloned_chunks-IsPicked :
    (ts : List ℤ) (table : Table) → IsPicked table.chunks ts (cloned_chunks ts table)
unfolding cloned_chunks
cloned_chunks-IsPicked [] table = nothing
cloned_chunks-IsPicked (t ∷ ts) table = elim (found_or_missing t table.chunks) [
  | inl (e, others) ↦ rw e (missing others (cloned_chunks-IsPicked ts table))
  | inr (c, e, here, time) ↦ rw e (picked c here time (cloned_chunks-IsPicked ts table))
]

-- The chunk of a period in memory.
abbrev chunk_in : ℤ → Option Table → Option Chunk
chunk_in t none = none
chunk_in t (some table) = find_chunk t table.chunks

abbrev pub chunk_at : Str → Str → ℤ → Buffer → Option Chunk
chunk_at db name t buffer = chunk_in t (get_table db name buffer)

abbrev pub IsSelected : Selection → Str → Str → ℤ → Type 0
IsSelected sel db name t = (sel.db_name ≡ db) × (sel.table_name ≡ name) × IsOneOf t sel.chunk_times

-- There is no chunk of a selected table and time after, and any other is as it was before.
abbrev pub IsRemoved : Selection → Buffer → Buffer → Type 0
IsRemoved sel before after =
    (db name : Str) (t : ℤ)
    → (IsSelected sel db name t → chunk_at db name t after ≡ none)
      × (¬ IsSelected sel db name t → chunk_at db name t after ≡ chunk_at db name t before)

has_time_iff : (ts : List ℤ) (t : ℤ) → (has_time ts t ≡ true) ↔ IsOneOf t ts
has_time_iff [] t = ground arith
has_time_iff (s ∷ ts) t = ground (arith, eqb_ℤ_iff s t, has_time_iff ts t)

chunk_in-changed :
    (ts : List ℤ) (t : ℤ) (o : Option Table)
    → chunk_in t (changed (retain_others ts) o) ≡ (if has_time ts t then none else chunk_in t o)
chunk_in-changed ts t none = ground arith
chunk_in-changed ts t (some table) = find_chunk-retain_others ts t table

chunk_at-retain_others :
    (sel : Selection) (buffer : Buffer) (db name : Str) (t : ℤ)
    → chunk_at db name t
        (get_table_mut sel.db_name sel.table_name (retain_others sel.chunk_times) buffer)
      ≡ (if str_eq sel.db_name db && (str_eq sel.table_name name && has_time sel.chunk_times t)
          then none
          else chunk_at db name t buffer)
chunk_at-retain_others sel buffer db name t =
    let o = get_table db name buffer in
    ap (chunk_in t) (
      get_table-get_table_mut sel.db_name sel.table_name db name (retain_others sel.chunk_times)
        buffer)
    ∙ elim (Bool-cases (str_eq sel.db_name db)) [
      | inl d ↦ elim (Bool-cases (str_eq sel.table_name name)) [
        | inl n ↦ rw (d, n) (chunk_in-changed sel.chunk_times t o)
        | inr n ↦ rw (d, n) refl
      ]
      | inr d ↦ rw d refl
    ]

pub get_table_mut-IsRemoved :
    (sel : Selection) (buffer : Buffer)
    → IsRemoved sel buffer
        (get_table_mut sel.db_name sel.table_name (retain_others sel.chunk_times) buffer)
get_table_mut-IsRemoved sel buffer db name t =
    let e = chunk_at-retain_others sel buffer db name t in
    let d = str_eq_iff sel.db_name db in
    let n = str_eq_iff sel.table_name name in
    let one = has_time_iff sel.chunk_times t in
    (
      (λ (hd, hn, ht). e ∙ rw (d.1 hd, n.1 hn, one.1 ht) refl),
      (λ other.
          elim (Bool-cases
            (str_eq sel.db_name db && (str_eq sel.table_name name && has_time sel.chunk_times t))) [
              | inl all ↦ absurd (
                  other (
                    d.0 (ground (arith, all)),
                    n.0 (ground (arith, all)),
                    one.0 (ground (arith, all)),
                  ))
              | inr not_all ↦ e ∙ rw not_all refl
            ]),
    )
