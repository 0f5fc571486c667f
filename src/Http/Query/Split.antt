-- ===== src/Http/Query/Split.antt =====
-- http/query.rs: what `split_once` takes apart.
use iedb_agent.Base.{
  ℕ, ◌≡◌, ◌≢◌, refl, [], ◌∷◌, ◌++◌, none, some, arith, ◌==◌, All, Option-cases, inl, inr,
  Bool-cases,
}
use iedb_agent.Base.Text.{Str}
use iedb_agent.Http.Query.{split_once}

-- The separator does not occur.
abbrev pub Free : ℕ → Str → Type 0
Free at s = All (λ c. c ≢ at) s

-- Joining two parts with the separator and cutting gives the parts back if it does not occur in the first.
pub split_once-join : (at : ℕ) (a b : Str) → Free at a → split_once at (a ++ at ∷ b) ≡ some (a, b)
unfolding split_once
split_once-join at [] b h = ground arith
split_once-join at (c ∷ a) b h = ground (arith, h.0, split_once-join at a b h.1)

-- Without the separator there is no cut.
pub split_once-none : (at : ℕ) (s : Str) → Free at s → split_once at s ≡ none
unfolding split_once
split_once-none at [] h = refl
split_once-none at (c ∷ s) h = ground (arith, h.0, split_once-none at s h.1)

-- If `split_once` gives two parts, they are the text before the first separator and the text after
-- it.
pub split_once_sound :
    (at : ℕ) (s a b : Str) → split_once at s ≡ some (a, b) → (s ≡ a ++ at ∷ b) × Free at a
unfolding split_once
split_once_sound at [] a b e = cc
split_once_sound at (c ∷ s) a b e = elim (Bool-cases (c == at)) [
  | inl same ↦ ground (arith, same, e)
  | inr ne ↦ elim (Option-cases (split_once at s)) [
    | inl none_left ↦ ground (arith, ne, e, none_left)
    | inr ((a', b'), cut) ↦
        let (joined, free) = split_once_sound at s a' b' cut in
        ground (arith, ne, e, cut, joined, free)
  ]
]
