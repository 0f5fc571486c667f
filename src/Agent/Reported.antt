-- ===== src/Agent/Reported.antt =====
-- agent/mod.rs: what a heartbeat reports, against a description of the changes.
use iedb_agent.Base.{
  ℕ, ◌≡◌, ◌≢◌, ◌⊎◌, ◌↔◌, refl, sym, ap, true, List, [], ◌∷◌, ◌++◌, some, none, arith, All, ◌==◌,
  Bool-cases, inl, inr,
}
use iedb_agent.Base.Text.{Str, str_eq_iff}
use iedb_agent.Base.Dict.{lookup}
use iedb_agent.Buffer.{Buffer}
use iedb_agent.Http.Query.{split_once}
use iedb_agent.Agent.{
  TableChange, Seen, State, Entry, key, entries, state_of, is_changed, change_of, gone_change, scan,
  is_current, removed, drop_entry, compute_table_changes,
}
use iedb_agent.Agent.Changes.{
  IsDistinct, IsSeen, reports, scan-reports, scan-IsSeen, lookup-scan_ne,
}
use iedb_agent.Agent.Silence.{removed-IsSeen}
use iedb_agent.Agent.Now.{IsNow, state_of-IsNow, is_changed_iff}

-- Of the tables, in their order, those whose state is not the one last seen.
pub data IsReported (s : State) : List Entry → List TableChange → Type 0 where
  no_more : IsReported s [] []
  told :
      {e : Entry} {es : List Entry} {cs : List TableChange}
      → (now : Seen) → IsNow e.table now
      → lookup (key e) s ≢ some now
      → IsReported s es cs
      → IsReported s (e ∷ es) (change_of e now ∷ cs)
  untold :
      {e : Entry} {es : List Entry} {cs : List TableChange}
      → (now : Seen) → IsNow e.table now
      → lookup (key e) s ≡ some now
      → IsReported s es cs
      → IsReported s (e ∷ es) cs

reports-IsReported : (es : List Entry) (s : State) → IsReported s es (reports es s)
reports-IsReported [] s = no_more
reports-IsReported (e ∷ es) s =
    let now = state_of e.table in
    let o = lookup (key e) s in
    elim (Bool-cases (is_changed o now)) [
      | inl new ↦ rw new (
          told now (state_of-IsNow e.table)
            (λ same. absurd (ground (arith, new, (is_changed_iff o now).1 same)))
            (reports-IsReported es s))
      | inr old ↦ rw old (
          untold now (state_of-IsNow e.table) ((is_changed_iff o now).0 old)
            (reports-IsReported es s))
    ]

abbrev pub HasKey : Str → List Entry → Type 0
HasKey k [] = ⊥
HasKey k (e ∷ es) = (key e ≡ k) ⊎ HasKey k es

-- Of the tables in a state, those that are not in the buffer, by the parts of their keys before and
-- after the first dot.
pub data IsGone (es : List Entry) : State → List TableChange → Type 0 where
  all_done : IsGone es [] []
  present :
      {k : Str} {v : Seen} {s : State} {cs : List TableChange}
      → HasKey k es
      → IsGone es s cs
      → IsGone es ((k, v) ∷ s) cs
  dotless :
      {k : Str} {v : Seen} {s : State} {cs : List TableChange}
      → ¬ HasKey k es
      → All (λ (c : ℕ). c ≢ b'.') k
      → IsGone es s cs
      → IsGone es ((k, v) ∷ s) cs
  gone :
      {k : Str} {v : Seen} {s : State} {cs : List TableChange}
      → (db table : Str) → ¬ HasKey k es
      → k ≡ db ++ b'.' ∷ table
      → All (λ (c : ℕ). c ≢ b'.') db
      → IsGone es s cs
      → IsGone es ((k, v) ∷ s) (gone_change (db, table) ∷ cs)

is_current_iff : (es : List Entry) (k : Str) → (is_current es k ≡ true) ↔ HasKey k es
is_current_iff [] k = ground arith
is_current_iff (e ∷ es) k = ground (arith, str_eq_iff (key e) k, is_current_iff es k)

abbrev SplitAt : ℕ → Str → Str → Str → Type 0
SplitAt at s left right =
    (split_once at s ≡ some (left, right)) × (s ≡ left ++ at ∷ right) × All (λ (c : ℕ). c ≢ at) left

split_once-cases :
    (at : ℕ) (s : Str)
    → ((split_once at s ≡ none) × All (λ (c : ℕ). c ≢ at) s)
      ⊎ ((left : Str) × (right : Str) × SplitAt at s left right)
unfolding split_once
split_once-cases at [] = inl (refl, tt)
split_once-cases at (c ∷ s) = elim (Bool-cases (c == at)) [
  | inl same ↦
      let e : c ≡ at = ground (arith, same) in inr ([], s, (rw same refl, ap (λ d. d ∷ s) e, tt))
  | inr other ↦
      let differs : c ≢ at = ground (arith, other) in
      elim (split_once-cases at s) [
        | inl (e, h) ↦ inl (rw (other, e) refl, (differs, h))
        | inr (left, right, (e, parts, h)) ↦
            inr (c ∷ left, right, (rw (other, e) refl, ap (λ rest. c ∷ rest) parts, (differs, h)))
      ]
]

removed-IsGone : (es : List Entry) (copy s : State) → IsGone es copy (removed es copy s).0
unfolding removed drop_entry
removed-IsGone es [] s = all_done
removed-IsGone es ((k, v) ∷ copy) s = elim (Bool-cases (is_current es k)) [
  | inl current ↦ rw current (present ((is_current_iff es k).0 current) (removed-IsGone es copy _))
  | inr stale ↦
      let absent : ¬ HasKey k es = λ h. absurd (ground (arith, stale, (is_current_iff es k).1 h)) in
      elim (split_once-cases b'.' k) [
        | inl (e, h) ↦ rw (stale, e) (dotless absent h (removed-IsGone es copy _))
        | inr (db, table, (e, parts, h)) ↦
            rw (stale, e) (gone db table absent parts h (removed-IsGone es copy _))
      ]
]

keys_differ : (k : Str) (es : List Entry) → ¬ HasKey k es → All (λ (f : Entry). k ≢ key f) es
keys_differ k [] h = tt
keys_differ k (e ∷ es) h = ((λ same. h (inl (sym same))), keys_differ k es (λ j. h (inr j)))

abbrev pub IsUpToDate : State → Entry → Type 0
IsUpToDate s e = (now : Seen) × IsNow e.table now × (lookup (key e) s ≡ some now)

all-IsUpToDate : (s : State) (es : List Entry) → All (IsSeen s) es → All (IsUpToDate s) es
all-IsUpToDate s [] h = tt
all-IsUpToDate s (e ∷ es) h =
    let now = state_of e.table in
    (
      (now, state_of-IsNow e.table, (is_changed_iff (lookup (key e) s) now).0 h.0),
      all-IsUpToDate s es h.1,
    )

-- If no two tables have the same key, a heartbeat reports first the tables whose least time, greatest
-- time or number of rows is not the one last seen of them, in the buffer's order, and then the tables
-- that were seen and are no longer in the buffer, by the parts of their keys around the first dot,
-- those without a dot left out; and the new state has every table of the buffer as it is now. What the
-- second part is taken from agrees with the old state on all keys that the buffer does not have.
pub compute_table_changes_lem :
    (buffer : Buffer) (last_state : State)
    → IsDistinct (entries buffer.databases)
    → let es = entries buffer.databases in
      let after = compute_table_changes buffer last_state in
      (reported : List TableChange) × (middle : State) × (dropped : List TableChange) × (after.0
        ≡ reported ++ dropped)
      × IsReported last_state es reported
      × IsGone es middle dropped
      × ((k : Str) → ¬ HasKey k es → lookup k middle ≡ lookup k last_state)
      × All (IsUpToDate after.1) es
unfolding compute_table_changes
compute_table_changes_lem buffer last_state d =
    let es = entries buffer.databases in
    let first = (scan es last_state).1 in
    (
      reports es last_state,
      first,
      (removed es first first).0,
      rw (scan-reports es last_state d) refl,
      reports-IsReported es last_state,
      removed-IsGone es first first,
      (λ k h. lookup-scan_ne k es last_state (keys_differ k es h)),
      all-IsUpToDate (removed es first first).1 es
          (removed-IsSeen first first es es (λ k c. c) (scan-IsSeen es last_state d)),
    )
