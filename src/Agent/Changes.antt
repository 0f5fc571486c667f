-- ===== src/Agent/Changes.antt =====
-- agent/mod.rs: what the first loop of a heartbeat reports.
use iedb_agent.Base.{
  ◌≡◌, ◌≢◌, refl, sym, ◌∙◌, false, List, [], ◌∷◌, some, arith, if◌then◌else◌, All, Bool-cases, inl,
  inr,
}
use iedb_agent.Base.Text.{Str, str_eq_iff, str_eq_self}
use iedb_agent.Base.Dict.{lookup, insert, lookup-update}
use iedb_agent.Agent.{
  TableChange, Seen, State, Entry, key, state_of, is_changed, change_of, push_if, scan,
}

-- No two tables have the same key.
abbrev pub IsDistinct : List Entry → Type 0
IsDistinct [] = Unit
IsDistinct (e ∷ es) = All (λ (f : Entry). key e ≢ key f) es × IsDistinct es

-- The tables whose state differs from the one last seen.
abbrev pub reports : List Entry → State → List TableChange
reports [] s = []
reports (e ∷ es) s =
    push_if (is_changed (lookup (key e) s) (state_of e.table)) (change_of e (state_of e.table))
      (reports es s)

lookup-insert_ne : (k j : Str) (v : Seen) (s : State) → k ≢ j → lookup j (insert k v s) ≡ lookup j s
unfolding insert
lookup-insert_ne k j v s ne = ground (arith, lookup-update k j v (λ _. v) s, str_eq_iff k j)

lookup-insert_self : (k : Str) (v : Seen) (s : State) → lookup k (insert k v s) ≡ some v
unfolding insert
lookup-insert_self k v s = ground (arith, lookup-update k k v (λ _. v) s, str_eq_self k)

is_changed_self : (now : Seen) → is_changed (some now) now ≡ false
unfolding is_changed
is_changed_self now = ground arith

abbrev after_entry : Entry → State → State
after_entry e s =
    if is_changed (lookup (key e) s) (state_of e.table)
    then insert (key e) (state_of e.table) s
    else s

lookup-after_entry_ne :
    (e : Entry) (j : Str) (s : State) → key e ≢ j → lookup j (after_entry e s) ≡ lookup j s
lookup-after_entry_ne e j s ne = ground (arith, lookup-insert_ne (key e) j (state_of e.table) s ne)

-- The table is up to date in the state.
abbrev pub IsSeen : State → Entry → Type 0
IsSeen s e = is_changed (lookup (key e) s) (state_of e.table) ≡ false

after_entry-IsSeen : (e : Entry) (s : State) → IsSeen (after_entry e s) e
after_entry-IsSeen e s = elim (Bool-cases (is_changed (lookup (key e) s) (state_of e.table))) [
  | inl new ↦
      rw (new, lookup-insert_self (key e) (state_of e.table) s) (is_changed_self (state_of e.table))
  | inr old ↦ rw old old
]

reports-after_entry :
    (e : Entry) (es : List Entry) (s : State)
    → All (λ (f : Entry). key e ≢ key f) es
    → reports es (after_entry e s) ≡ reports es s
reports-after_entry e [] s ne = refl
reports-after_entry e (f ∷ es) s ne =
    rw (lookup-after_entry_ne e (key f) s ne.0, reports-after_entry e es s ne.1) refl

pub scan-reports : (es : List Entry) (s : State) → IsDistinct es → (scan es s).0 ≡ reports es s
unfolding scan
scan-reports [] s d = refl
scan-reports (e ∷ es) s d =
    rw (scan-reports es (after_entry e s) d.1, reports-after_entry e es s d.0) refl

pub lookup-scan_ne :
    (j : Str) (es : List Entry) (s : State)
    → All (λ (f : Entry). j ≢ key f) es
    → lookup j (scan es s).1 ≡ lookup j s
unfolding scan
lookup-scan_ne j [] s ne = refl
lookup-scan_ne j (e ∷ es) s ne =
    lookup-scan_ne j es (after_entry e s) ne.1 ∙ lookup-after_entry_ne e j s (λ h. ne.0 (sym h))

pub scan-IsSeen : (es : List Entry) (s : State) → IsDistinct es → All (IsSeen (scan es s).1) es
unfolding scan
scan-IsSeen [] s d = tt
scan-IsSeen (e ∷ es) s d = (
  rw (lookup-scan_ne (key e) es (after_entry e s) d.0) (after_entry-IsSeen e s),
  scan-IsSeen es (after_entry e s) d.1,
)

pub scan_silent : (es : List Entry) (s : State) → All (IsSeen s) es → scan es s ≡ ([], s)
unfolding scan
scan_silent [] s h = refl
scan_silent (e ∷ es) s h = rw (h.0, scan_silent es s h.1) refl
