-- ===== src/Buffer/Everywhere.antt =====
-- buffer/mod.rs: properties of every chunk of every table.
use iedb_agent.Base.{List, [], ◌∷◌, Option, none, some, All, All-map, Bool-cases, inl, inr}
use iedb_agent.Base.Text.{Str, str_eq}
use iedb_agent.Base.Dict.{Dict, update, lookup}
use iedb_agent.Buffer.{Buffer, table_in, get_table, get_table_mut, modify, modify_db}
use iedb_agent.Buffer.Chunk.{Chunk}
use iedb_agent.Buffer.Table.{Table}

-- A property of every chunk of every table.
abbrev pub Tables {κ} : (Chunk → Type κ) → Dict Table → Type κ
Tables P ts = All (λ (e : Str × Table). All P e.1.chunks) ts

abbrev pub Everywhere {κ} : (Chunk → Type κ) → Dict (Dict Table) → Type κ
Everywhere P dbs = All (λ (e : Str × Dict Table). Tables P e.1) dbs

module _ {κ μ} (P : Chunk → Type κ) (Q : Chunk → Type μ) (f : (c : Chunk) → P c → Q c) where
  pub Tables-map : (ts : Dict Table) → Tables P ts → Tables Q ts
  Tables-map ts h =
      All-map (λ (e : Str × Table). All P e.1.chunks) (λ (e : Str × Table). All Q e.1.chunks)
        (λ e. All-map P Q f e.1.chunks) ts h

  pub Everywhere-map : (dbs : Dict (Dict Table)) → Everywhere P dbs → Everywhere Q dbs
  Everywhere-map dbs h =
      All-map (λ (e : Str × Dict Table). Tables P e.1) (λ (e : Str × Dict Table). Tables Q e.1)
        (λ e. Tables-map e.1) dbs h

All-zip :
    (P Q : Chunk → Type 0) (cs : List Chunk)
    → All P cs
    → All Q cs
    → All (λ (c : Chunk). P c × Q c) cs
All-zip P Q [] h k = tt
All-zip P Q (c ∷ cs) h k = ((h.0, k.0), All-zip P Q cs h.1 k.1)

Tables-zip :
    (P Q : Chunk → Type 0) (ts : Dict Table)
    → Tables P ts
    → Tables Q ts
    → Tables (λ (c : Chunk). P c × Q c) ts
Tables-zip P Q [] h k = tt
Tables-zip P Q ((_, t) ∷ ts) h k = (All-zip P Q t.chunks h.0 k.0, Tables-zip P Q ts h.1 k.1)

pub Everywhere-zip :
    (P Q : Chunk → Type 0) (dbs : Dict (Dict Table))
    → Everywhere P dbs
    → Everywhere Q dbs
    → Everywhere (λ (c : Chunk). P c × Q c) dbs
Everywhere-zip P Q [] h k = tt
Everywhere-zip P Q ((_, ts) ∷ dbs) h k = (Tables-zip P Q ts h.0 k.0, Everywhere-zip P Q dbs h.1 k.1)

-- A property of all values of a dictionary is kept by a change that keeps it.
pub All-update {ℓ κ} :
    {V : Type ℓ} (P : V → Type κ) (k : Str) (d : V) (f : V → V)
    → P (f d)
    → ((v : V) → P v → P (f v))
    → (m : Dict V) → All (λ (e : Str × V). P e.1) m
    → All (λ (e : Str × V). P e.1) (update k d f m)
unfolding update
All-update P k d f new keep [] h = (new, tt)
All-update P k d f new keep ((j, v) ∷ m) h = elim (Bool-cases (str_eq j k)) [
  | inl same ↦ rw same (keep v h.0, h.1)
  | inr other ↦ rw other (h.0, All-update P k d f new keep m h.1)
]

-- The chunks of a table that is found.
abbrev pub ChunksOf {κ} : (Chunk → Type κ) → Option Table → Type κ
ChunksOf P none = Unit
ChunksOf P (some t) = All P t.chunks

lookup-Tables {κ} :
    (P : Chunk → Type κ) (name : Str) (ts : Dict Table) → Tables P ts → ChunksOf P (lookup name ts)
unfolding lookup
lookup-Tables P name [] h = tt
lookup-Tables P name ((j, t) ∷ ts) h = elim (Bool-cases (str_eq j name)) [
  | inl same ↦ rw same h.0
  | inr other ↦ rw other (lookup-Tables P name ts h.1)
]

lookup-Everywhere {κ} :
    (P : Chunk → Type κ) (db name : Str) (dbs : Dict (Dict Table))
    → Everywhere P dbs
    → ChunksOf P (table_in name (lookup db dbs))
unfolding lookup
lookup-Everywhere P db name [] h = tt
lookup-Everywhere P db name ((j, ts) ∷ dbs) h = elim (Bool-cases (str_eq j db)) [
  | inl same ↦ rw same (lookup-Tables P name ts h.0)
  | inr other ↦ rw other (lookup-Everywhere P db name dbs h.1)
]

pub get_table-Everywhere {κ} :
    (P : Chunk → Type κ) (db name : Str) (buffer : Buffer)
    → Everywhere P buffer.databases
    → ChunksOf P (get_table db name buffer)
unfolding get_table
get_table-Everywhere P db name buffer h = lookup-Everywhere P db name buffer.databases h

module _ {κ} (P : Chunk → Type κ) (f : Table → Table)
    (keeps : (t : Table) → All P t.chunks → All P (f t).chunks) where
  modify-Tables : (name : Str) (ts : Dict Table) → Tables P ts → Tables P (modify name f ts)
  unfolding modify
  modify-Tables name [] h = tt
  modify-Tables name ((j, t) ∷ ts) h = elim (Bool-cases (str_eq j name)) [
    | inl same ↦ rw same (keeps t h.0, h.1)
    | inr other ↦ rw other (h.0, modify-Tables name ts h.1)
  ]

  modify_db-Everywhere :
      (db name : Str) (dbs : Dict (Dict Table))
      → Everywhere P dbs
      → Everywhere P (modify_db db name f dbs)
  unfolding modify_db
  modify_db-Everywhere db name [] h = tt
  modify_db-Everywhere db name ((j, ts) ∷ dbs) h = elim (Bool-cases (str_eq j db)) [
    | inl same ↦ rw same (modify-Tables name ts h.0, h.1)
    | inr other ↦ rw other (h.0, modify_db-Everywhere db name dbs h.1)
  ]

  -- A change of one table that keeps the property of its chunks keeps it everywhere.
  pub get_table_mut-Everywhere :
      (db name : Str) (buffer : Buffer)
      → Everywhere P buffer.databases
      → Everywhere P (get_table_mut db name f buffer).databases
  unfolding get_table_mut
  get_table_mut-Everywhere db name buffer h = modify_db-Everywhere db name buffer.databases h
