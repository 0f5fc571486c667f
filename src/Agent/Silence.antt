-- ===== src/Agent/Silence.antt =====
-- agent/mod.rs: repeated heartbeats.
use iedb_agent.Base.{
  ◌≡◌, ◌⊎◌, refl, sym, ◌∙◌, true, false, List, [], ◌∷◌, none, arith, if◌then◌else◌, All, All-map,
  any_of, Bool-cases, Option-cases, inl, inr,
}
use iedb_agent.Base.Text.{Str, str_eq, str_eq_iff, str_eq_self}
use iedb_agent.Base.Dict.{lookup, erase, lookup-erase}
use iedb_agent.Buffer.{Buffer}
use iedb_agent.Http.Query.{split_once}
use iedb_agent.Agent.{
  TableChange, Seen, State, Entry, key, entries, scan, is_current, removed, drop_entry,
  compute_table_changes,
}
use iedb_agent.Agent.Changes.{IsDistinct, IsSeen, scan-IsSeen, scan_silent}

-- The entry belongs to a table in the buffer, or its key has no dot.
abbrev Kept : List Entry → Str × Seen → Type 0
Kept es p = (is_current es p.0 ≡ true) ⊎ (split_once b'.' p.0 ≡ none)

abbrev Pending : List Entry → State → Str × Seen → Type 0
Pending es copy p = Kept es p ⊎ (any_of (λ (q : Str × Seen). str_eq q.0 p.0) copy ≡ true)

-- What one turn of the second loop does to the state.
abbrev step_out : List Entry → Str → State → List TableChange × State
unfolding drop_entry
step_out es k s = if is_current es k then ([], s) else drop_entry (split_once b'.' k) k s

erase-Pending :
    (es : List Entry) (k : Str) (v : Seen) (copy s : State)
    → All (Pending es ((k, v) ∷ copy)) s
    → All (Pending es copy) (erase k s)
unfolding erase
erase-Pending es k v copy [] h = tt
erase-Pending es k v copy ((j, u) ∷ s) h = elim (Bool-cases (str_eq j k)) [
  | inl same ↦ rw same (erase-Pending es k v copy s h.1)
  | inr other ↦
      let ne : str_eq k j ≡ false = ground (arith, other, str_eq_iff j k, str_eq_iff k j) in
      let head : Pending es copy (j, u) = elim h.0 [
        | inl kept ↦ inl kept
        | inr later ↦ inr (ground (arith, later, ne))
      ] in
      rw other (head, erase-Pending es k v copy s h.1)
]

keep-Pending :
    (es : List Entry) (k : Str) (v : Seen) (copy s : State)
    → ((w : Seen) → Kept es (k, w))
    → All (Pending es ((k, v) ∷ copy)) s
    → All (Pending es copy) s
keep-Pending es k v copy [] kept h = tt
keep-Pending es k v copy ((j, u) ∷ s) kept h =
    let head : Pending es copy (j, u) = elim h.0 [
      | inl k ↦ inl k
      | inr later ↦ elim (Bool-cases (str_eq k j)) [
        | inl same ↦ inl (subst_key ((str_eq_iff k j).0 same))
        | inr other ↦ inr (ground (arith, later, other))
      ]
    ] in
    (head, keep-Pending es k v copy s kept h.1)
  where
    subst_key : k ≡ j → Kept es (j, u)
    subst_key e = rw (sym e) (kept u)

step_out-Pending :
    (es : List Entry) (k : Str) (v : Seen) (copy s : State)
    → All (Pending es ((k, v) ∷ copy)) s
    → All (Pending es copy) (step_out es k s).1
unfolding drop_entry
step_out-Pending es k v copy s h = elim (Bool-cases (is_current es k)) [
  | inl current ↦ rw current (keep-Pending es k v copy s (λ w. inl current) h)
  | inr stale ↦ elim (Option-cases (split_once b'.' k)) [
    | inl dotless ↦ rw (stale, dotless) (keep-Pending es k v copy s (λ w. inr dotless) h)
    | inr (parts, e) ↦ rw (stale, e) (erase-Pending es k v copy s h)
  ]
]

removed-Pending :
    (es : List Entry) (copy s : State)
    → All (Pending es copy) s
    → All (Pending es []) (removed es copy s).1
unfolding removed
removed-Pending es [] s h = h
removed-Pending es ((k, v) ∷ copy) s h =
    removed-Pending es copy (step_out es k s).1 (step_out-Pending es k v copy s h)

every-Pending : (es : List Entry) (s : State) → All (Pending es s) s
every-Pending es [] = tt
every-Pending es ((k, v) ∷ s) = (
  inr (ground (arith, str_eq_self k)),
  All-map (Pending es s) (Pending es ((k, v) ∷ s))
      (λ p h. elim h [ inl kept ↦ inl kept | inr later ↦ inr (ground (arith, later)) ]) s
      (every-Pending es s),
)

-- Entries of tables in the buffer stay as they are.
lookup-step_out :
    (es : List Entry) (j k : Str) (s : State)
    → is_current es j ≡ true
    → lookup j (step_out es k s).1 ≡ lookup j s
unfolding drop_entry
lookup-step_out es j k s current = ground (arith, current, lookup-erase k j s, str_eq_iff k j)

lookup-removed :
    (es : List Entry) (j : Str) (copy s : State)
    → is_current es j ≡ true
    → lookup j (removed es copy s).1 ≡ lookup j s
unfolding removed
lookup-removed es j [] s current = refl
lookup-removed es j ((k, _) ∷ copy) s current =
    lookup-removed es j copy (step_out es k s).1 current ∙ lookup-step_out es j k s current

step_out_silent :
    (es : List Entry) (k : Str) (v : Seen) (s : State)
    → Pending es [] (k, v)
    → step_out es k s ≡ ([], s)
unfolding drop_entry
step_out_silent es k v s (inl (inl current)) = rw current refl
step_out_silent es k v s (inl (inr dotless)) = elim (Bool-cases (is_current es k)) [
  | inl current ↦ rw current refl
  | inr stale ↦ rw (stale, dotless) refl
]
step_out_silent es k v s (inr later) = cc

removed_silent :
    (es : List Entry) (copy s : State) → All (Pending es []) copy → removed es copy s ≡ ([], s)
unfolding removed
removed_silent es [] s h = refl
removed_silent es ((k, v) ∷ copy) s h =
    rw (step_out_silent es k v s h.0, removed_silent es copy s h.1) refl

current_from : (es : List Entry) (e : Entry) → is_current (e ∷ es) (key e) ≡ true
current_from es e = ground (arith, str_eq_self (key e))

pub removed-IsSeen :
    (copy s : State) (es front : List Entry)
    → ((k : Str) → is_current es k ≡ true → is_current front k ≡ true)
    → All (IsSeen s) es
    → All (IsSeen (removed front copy s).1) es
removed-IsSeen copy s [] front inside h = tt
removed-IsSeen copy s (e ∷ es) front inside h = (
  rw (lookup-removed front (key e) copy s (inside (key e) (current_from es e))) h.0,
  removed-IsSeen copy s es front (λ k c. inside k (ground (arith, c))) h.1,
)

-- If no two tables have the same key, a second heartbeat over the same buffer reports no table, and
-- leaves the state as the first left it.
pub compute_table_changes_again :
    (buffer : Buffer) (last_state : State)
    → IsDistinct (entries buffer.databases)
    → let s = (compute_table_changes buffer last_state).1 in
      compute_table_changes buffer s ≡ ([], s)
unfolding compute_table_changes
compute_table_changes_again buffer last_state d =
    let es = entries buffer.databases in
    let first = (scan es last_state).1 in
    let s = (removed es first first).1 in
    let seen = removed-IsSeen first first es es (λ k c. c) (scan-IsSeen es last_state d) in
    rw
      (
        scan_silent es s seen,
        removed_silent es s s (removed-Pending es first first (every-Pending es first)),
      )
      refl
