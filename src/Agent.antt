-- ===== src/Agent.antt =====
-- agent/mod.rs: what the agent tells the server about its tables.
pub mod Changes
pub mod Silence
pub mod Now
pub mod Reported
pub mod Requests
pub mod Heartbeats
use iedb_agent.Base.{
  ℕ, ◌+◌, ◌≡◌, Bool, true, false, not, ◌||◌, List, [], ◌∷◌, ◌++◌, map, Option, none, some, length,
  ltb, ◌==◌, any_of, if◌then◌else◌,
}
use iedb_agent.Base.Int.{ℤ, pos, quot, ltb_ℤ, eqb_ℤ}
use iedb_agent.Base.Text.{Str, Bytes, codes, str_eq}
use iedb_agent.Base.Dict.{Dict, lookup, insert, erase}
use iedb_agent.Buffer.{Buffer}
use iedb_agent.Buffer.Chunk.{Chunk}
use iedb_agent.Buffer.Table.{Table}
use iedb_agent.Http.Query.{split_once}

pub record TableChange : Type 0 where
  pub db : Str
  pub table : Str
  pub min_time : ℤ
  pub max_time : ℤ
  pub row_count : ℕ

-- What `last_state` keeps of a table.
pub record Seen : Type 0 where
  pub min_time : ℤ
  pub max_time : ℤ
  pub row_count : ℕ

abbrev pub State : Type 0
State = Dict Seen

-- A table with the names under which the buffer has it.
pub record Entry : Type 0 where
  pub db : Str
  pub name : Str
  pub table : Table

-- `format!("{}.{}", db_name, table_name)`
abbrev pub key : Entry → Str
key e = e.db ++ b'.' ∷ e.name

-- The nested loops over databases and tables, as one over pairs.
unfoldable pub entries : Dict (Dict Table) → List Entry
entries [] = []
entries ((db, ts) ∷ dbs) =
    map (λ (p : Str × Table). record { db = db; name = p.0; table = p.1 }) ts ++ entries dbs

-- `iter().min().unwrap_or(0)` and `iter().max().unwrap_or(0)`
abbrev pub min_or_zero : List ℤ → ℤ
min_or_zero [] = pos 0
min_or_zero (t ∷ []) = t
min_or_zero (t ∷ u ∷ ts) = let m = min_or_zero (u ∷ ts) in if ltb_ℤ m t then m else t

abbrev pub max_or_zero : List ℤ → ℤ
max_or_zero [] = pos 0
max_or_zero (t ∷ []) = t
max_or_zero (t ∷ u ∷ ts) = let m = max_or_zero (u ∷ ts) in if ltb_ℤ t m then m else t

-- The rows are in memory, so that their number is far below the bound of a `usize`.
abbrev pub sum_of_rows : List Chunk → ℕ
sum_of_rows [] = 0
sum_of_rows (c ∷ cs) = length c.rows + sum_of_rows cs

-- The present state of a table; nanoseconds become microseconds, rounded toward zero.
unfoldable pub state_of : Table → Seen
unfolding quot
state_of table = record {
  min_time = quot (min_or_zero (map (λ (c : Chunk). c.time_min) table.chunks)) (pos 1000);
  max_time = quot (max_or_zero (map (λ (c : Chunk). c.time_max) table.chunks)) (pos 1000);
  row_count = sum_of_rows table.chunks;
}

unfoldable pub is_changed : Option Seen → Seen → Bool
is_changed none now = true
is_changed (some prev) now =
    not (eqb_ℤ prev.min_time now.min_time)
    || (not (eqb_ℤ prev.max_time now.max_time) || not (prev.row_count == now.row_count))

abbrev pub change_of : Entry → Seen → TableChange
change_of e now = record {
  db = e.db;
  table = e.name;
  min_time = now.min_time;
  max_time = now.max_time;
  row_count = now.row_count;
}

abbrev pub push_if : Bool → TableChange → List TableChange → List TableChange
push_if changed c cs = if changed then c ∷ cs else cs

-- The first loop: the changes, and the state after it.
unfoldable pub scan : List Entry → State → List TableChange × State
unfolding is_changed state_of lookup insert
scan [] last_state = ([], last_state)
scan (e ∷ es) last_state =
    let now = state_of e.table in
    let changed = is_changed (lookup (key e) last_state) now in
    let rest = scan es (if changed then insert (key e) now last_state else last_state) in
    (push_if changed (change_of e now) rest.0, rest.1)

abbrev pub is_current : List Entry → Str → Bool
is_current es k = any_of (λ e. str_eq (key e) k) es

abbrev pub gone_change : Str × Str → TableChange
gone_change (db, table) = record {
  db = db;
  table = table;
  min_time = pos 0;
  max_time = pos 0;
  row_count = 0;
}

-- `splitn(2, '.')` gives two parts if there is a dot; without one the entry is left as it is.
unfoldable pub drop_entry : Option (Str × Str) → Str → State → List TableChange × State
unfolding erase
drop_entry none k last_state = ([], last_state)
drop_entry (some parts) k last_state = (gone_change parts ∷ [], erase k last_state)

-- The second loop, over a copy of the state.
unfoldable pub removed : List Entry → State → State → List TableChange × State
unfolding split_once drop_entry
removed es [] last_state = ([], last_state)
removed es ((k, _) ∷ copy) last_state =
    let here =
      if is_current es k then ([], last_state) else drop_entry (split_once b'.' k) k last_state in
    let rest = removed es copy here.1 in (here.0 ++ rest.0, rest.1)

unfoldable pub compute_table_changes : Buffer → State → List TableChange × State
unfolding entries scan removed
compute_table_changes buffer last_state =
    let es = entries buffer.databases in
    let first = scan es last_state in
    let second = removed es first.1 first.1 in (first.0 ++ second.0, second.1)

-- One round of the heartbeat loop: the changes are sent, and the new state is kept whatever the
-- answer is.
unfoldable pub heartbeat_round : (List TableChange → Option Str) → Buffer → State → State
unfolding compute_table_changes
heartbeat_round heartbeat buffer last_state = (compute_table_changes buffer last_state).1
