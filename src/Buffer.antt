-- ===== src/Buffer.antt =====
-- buffer/mod.rs: all tables of all databases.
pub mod Schema
pub mod Chunk
pub mod Table
pub mod Tags
pub mod Query
pub mod Everywhere
use iedb_agent.Base.{ℕ, ◌+◌, ◌%◌, ◌≡◌, List, [], ◌∷◌, Option, none, some, arith, if◌then◌else◌}
use iedb_agent.Base.Text.{Str, str_eq, str_eq_iff}
use iedb_agent.Base.Dict.{Dict, lookup, update, or_else, lookup-update}

-- db_name => table_name => Table
pub record Buffer : Type 0 where
  pub databases : Dict (Dict Table.Table)

abbrev pub new : Buffer
new = record { databases = [] }

-- The caller changes by `f` the table that the reference points to.
unfoldable pub get_or_create_table : Str → Str → (Table.Table → Table.Table) → Buffer → Buffer
unfolding update
get_or_create_table db table f buffer = record {
  databases = update db [] (λ tables. update table (Table.new table) f tables) buffer.databases;
}

abbrev pub table_in : Str → Option (Dict Table.Table) → Option Table.Table
table_in table none = none
table_in table (some tables) = lookup table tables

unfoldable pub get_table : Str → Str → Buffer → Option Table.Table
unfolding lookup
get_table db table buffer = table_in table (lookup db buffer.databases)

-- `if let Some(table) = get_table_mut(db, table) { … }`: nothing happens if there is no such table.
modify : Str → (Table.Table → Table.Table) → Dict Table.Table → Dict Table.Table
modify table f [] = []
modify table f ((j, t) ∷ ts) = if str_eq j table then (j, f t) ∷ ts else (j, t) ∷ modify table f ts

modify_db :
    Str → Str → (Table.Table → Table.Table) → Dict (Dict Table.Table) → Dict (Dict Table.Table)
unfolding modify
modify_db db table f [] = []
modify_db db table f ((j, ts) ∷ dbs) =
    if str_eq j db then (j, modify table f ts) ∷ dbs else (j, ts) ∷ modify_db db table f dbs

unfoldable pub get_table_mut : Str → Str → (Table.Table → Table.Table) → Buffer → Buffer
unfolding modify_db
get_table_mut db table f buffer = record { databases = modify_db db table f buffer.databases }

size_of_tables : ℕ → Dict Table.Table → ℕ
size_of_tables usize_mod [] = 0
size_of_tables usize_mod ((_, t) ∷ ts) =
    (Table.estimated_size usize_mod t + size_of_tables usize_mod ts) % usize_mod

size_of_dbs : ℕ → Dict (Dict Table.Table) → ℕ
unfolding size_of_tables
size_of_dbs usize_mod [] = 0
size_of_dbs usize_mod ((_, ts) ∷ dbs) =
    (size_of_tables usize_mod ts + size_of_dbs usize_mod dbs) % usize_mod

unfoldable pub total_estimated_size : ℕ → Buffer → ℕ
unfolding size_of_dbs Table.estimated_size
total_estimated_size usize_mod buffer = size_of_dbs usize_mod buffer.databases

abbrev pub table_or_new : Str → Option Table.Table → Table.Table
table_or_new name none = Table.new name
table_or_new name (some t) = t

table_in-update :
    (name j : Str) (f : Table.Table → Table.Table) (o : Option (Dict Table.Table))
    → table_in j (some (update name (Table.new name) f (or_else o [])))
      ≡ (if str_eq name j then some (f (table_or_new name (table_in name o))) else table_in j o)
unfolding lookup
table_in-update name j f none =
    ground (arith, lookup-update name j (Table.new name) f [], str_eq_iff name j)
table_in-update name j f (some tables) = ground (
  arith,
  lookup-update name j (Table.new name) f tables,
  str_eq_iff name j,
  table_or_new-or_else (lookup name tables),
)
  where
    table_or_new-or_else :
        (o : Option Table.Table) → or_else o (Table.new name) ≡ table_or_new name o
    table_or_new-or_else none = ground arith
    table_or_new-or_else (some t) = ground arith

-- A change of one table is seen at that table, and at no other.
pub get_table-get_or_create_table :
    (db name d j : Str) (f : Table.Table → Table.Table) (buffer : Buffer)
    → get_table d j (get_or_create_table db name f buffer) ≡ (
        if str_eq db d
        then if str_eq name j
          then some (f (table_or_new name (get_table db name buffer)))
          else get_table d j buffer
        else get_table d j buffer)
unfolding get_table get_or_create_table
get_table-get_or_create_table db name d j f buffer = ground (
  arith,
  lookup-update db d [] (λ tables. update name (Table.new name) f tables) buffer.databases,
  str_eq_iff db d,
  table_in-update name j f (lookup db buffer.databases),
)

abbrev pub changed : (Table.Table → Table.Table) → Option Table.Table → Option Table.Table
changed f none = none
changed f (some t) = some (f t)

lookup-modify :
    (name j : Str) (f : Table.Table → Table.Table) (ts : Dict Table.Table)
    → lookup j (modify name f ts) ≡ (if str_eq name j then changed f (lookup j ts) else lookup j ts)
unfolding lookup modify
lookup-modify name j f [] = ground arith
lookup-modify name j f ((i, t) ∷ ts) =
    ground (arith, str_eq_iff name j, str_eq_iff i name, str_eq_iff i j, lookup-modify name j f ts)

table_in-modify_db :
    (db name d j : Str) (f : Table.Table → Table.Table) (dbs : Dict (Dict Table.Table))
    → table_in j (lookup d (modify_db db name f dbs)) ≡ (
        if str_eq db d
        then if str_eq name j
          then changed f (table_in j (lookup d dbs))
          else table_in j (lookup d dbs)
        else table_in j (lookup d dbs))
unfolding lookup modify_db
table_in-modify_db db name d j f [] = ground arith
table_in-modify_db db name d j f ((i, ts) ∷ dbs) = ground (
  arith,
  str_eq_iff db d,
  str_eq_iff i db,
  str_eq_iff i d,
  lookup-modify name j f ts,
  table_in-modify_db db name d j f dbs,
)

-- A change through `get_table_mut` is seen at that table, and at no other.
pub get_table-get_table_mut :
    (db name d j : Str) (f : Table.Table → Table.Table) (buffer : Buffer)
    → get_table d j (get_table_mut db name f buffer) ≡ (
        if str_eq db d
        then if str_eq name j then changed f (get_table d j buffer) else get_table d j buffer
        else get_table d j buffer)
unfolding get_table get_table_mut
get_table-get_table_mut db name d j f buffer = table_in-modify_db db name d j f buffer.databases
