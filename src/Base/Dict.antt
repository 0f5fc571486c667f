-- ===== src/Base/Dict.antt =====
-- A `HashMap` with string keys, as an association list in the order of first insertion. Rust leaves
-- the order of iteration open; what is stated about iteration holds of every list.
use mathlib.Core.Path.{◌≡◌, refl}
use mathlib.Core.Option.{Option, none, some}
use mathlib.Core.List.{List, [], ◌∷◌}
use native.Mathlib.Omega.{arith}
use iedb_agent.Base.Tests.{if◌then◌else◌}
use iedb_agent.Base.Text.{Str, str_eq, str_eq_iff}

abbrev pub Dict {ℓ} : Type ℓ → Type ℓ
Dict V = List (Str × V)

module _ {ℓ} {V : Type ℓ} where
  -- `get`
  unfoldable pub lookup : Str → Dict V → Option V
  lookup k [] = none
  lookup k ((j, v) ∷ m) = if str_eq j k then some v else lookup k m

  -- `entry(k).or_insert(d)`, then a change `f` through the reference
  unfoldable pub update : Str → V → (V → V) → Dict V → Dict V
  update k d f [] = (k, f d) ∷ []
  update k d f ((j, v) ∷ m) = if str_eq j k then (j, f v) ∷ m else (j, v) ∷ update k d f m

  -- `insert`
  unfoldable pub insert : Str → V → Dict V → Dict V
  unfolding update
  insert k v m = update k v (λ _. v) m

  -- `remove`
  unfoldable pub erase : Str → Dict V → Dict V
  erase k [] = []
  erase k ((j, v) ∷ m) = let rest = erase k m in if str_eq j k then rest else (j, v) ∷ rest

  abbrev pub or_else : Option V → V → V
  or_else none d = d
  or_else (some v) d = v

  pub lookup-update :
      (k j : Str) (d : V) (f : V → V) (m : Dict V)
      → lookup j (update k d f m)
        ≡ (if str_eq k j then some (f (or_else (lookup k m) d)) else lookup j m)
  unfolding lookup update
  lookup-update k j d f [] = refl
  lookup-update k j d f ((i, v) ∷ m) =
      ground (arith, str_eq_iff k j, str_eq_iff i k, str_eq_iff i j, lookup-update k j d f m)

  pub lookup-erase :
      (k j : Str) (m : Dict V) → lookup j (erase k m) ≡ (if str_eq k j then none else lookup j m)
  unfolding lookup erase
  lookup-erase k j [] = ground arith
  lookup-erase k j ((i, v) ∷ m) =
      ground (arith, str_eq_iff k j, str_eq_iff i k, str_eq_iff i j, lookup-erase k j m)
