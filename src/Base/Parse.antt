-- ===== src/Base/Parse.antt =====
-- Decimal numbers as the standard library prints and parses them, and other tests on texts.
use iedb_agent.Base.Tests.{leb, ◌==◌, if◌then◌else◌, le→leb, Bool-cases}
use iedb_agent.Base.Text.{Str, str_eq, str_eq_iff, str_eq_self}
use iedb_agent.Base.Lists.{length, length-append}
use mathlib.Core.Logic.{inl, inr}
use Prim.Native.Nat.{ℕ, zero, suc, ◌+◌, ◌-◌, ◌*◌, ◌/◌, ◌%◌, ◌^◌, ◌≤◌, ◌<◌}
use mathlib.Core.Path.{◌≡◌, refl, ap, ◌∙◌}
use mathlib.Core.Bool.{Bool, false, ◌&&◌}
use mathlib.Core.Option.{Option, none, some}
use mathlib.Core.List.{[], ◌∷◌, ◌++◌, append_assoc, append-nil}
use native.Mathlib.Omega.{arith}
use native.Mathlib.Nat.{pow-suc}

abbrev pub is_digit : ℕ → Bool
is_digit c = leb b'0' c && leb c b'9'

-- The digits of a number of at most `limit`, after those that gave `acc`.
unfoldable pub parse_digits : ℕ → ℕ → Str → Option ℕ
parse_digits limit acc [] = some acc
parse_digits limit acc (c ∷ s) =
    let n = acc * 10 + (c - b'0') in
    if is_digit c && leb n limit then parse_digits limit n s else none

-- `parse` of an unsigned number: a `+` may stand in front, and a digit must follow.
unfoldable pub parse_unsigned : ℕ → Str → Option ℕ
unfolding parse_digits
parse_unsigned limit [] = none
parse_unsigned limit (c ∷ []) = if c == b'+' then none else parse_digits limit 0 (c ∷ [])
parse_unsigned limit (c ∷ d ∷ s) =
    if c == b'+' then parse_digits limit 0 (d ∷ s) else parse_digits limit 0 (c ∷ d ∷ s)

abbrev pub cons_some : ℕ → Option Str → Option Str
cons_some c none = none
cons_some c (some s) = some (c ∷ s)

-- `strip_suffix`
unfoldable pub strip_suffix : Str → Str → Option Str
unfolding str_eq
strip_suffix suffix [] = if str_eq [] suffix then some [] else none
strip_suffix suffix (c ∷ s) =
    let rest = cons_some c (strip_suffix suffix s) in
    if str_eq (c ∷ s) suffix then some [] else rest

longer : (c : ℕ) (s suffix : Str) → str_eq (c ∷ s ++ suffix) suffix ≡ false
longer c s suffix = elim (Bool-cases (str_eq (c ∷ s ++ suffix) suffix)) [
  | inl same ↦ absurd (
      omega
        (arith, ap length ((str_eq_iff (c ∷ s ++ suffix) suffix).0 same), length-append s suffix))
  | inr other ↦ other
]

-- The suffix comes off again.
pub strip_suffix-append : (suffix s : Str) → strip_suffix suffix (s ++ suffix) ≡ some s
unfolding strip_suffix
strip_suffix-append [] [] = refl
strip_suffix-append (c ∷ suffix) [] = rw (str_eq_self (c ∷ suffix))
strip_suffix-append suffix (c ∷ s) = rw (longer c s suffix, strip_suffix-append suffix s)

-- The last `width` decimal digits, with zeros in front.
unfoldable pub fixed_digits : ℕ → ℕ → Str
fixed_digits zero n = []
fixed_digits (suc width) n = fixed_digits width (n / 10) ++ (b'0' + n % 10) ∷ []

pub one_digit :
    (limit acc d : ℕ) (rest : Str)
    → d < 10
    → acc * 10 + d ≤ limit
    → parse_digits limit acc ((b'0' + d) ∷ rest) ≡ parse_digits limit (acc * 10 + d) rest
unfolding parse_digits
one_digit limit acc d rest h b =
    let e : acc * 10 + (b'0' + d - b'0') ≡ acc * 10 + d = omega arith in
    let low : b'0' ≤ b'0' + d = omega arith in
    let high : b'0' + d ≤ b'9' = omega arith in
    rw (e, le→leb b'0' (b'0' + d) low, le→leb (b'0' + d) b'9' high, le→leb (acc * 10 + d) limit b)

-- The digits of `n` read back as `n` after what stood in front.
parse_digits-fixed_digits :
    (limit width acc n : ℕ) (rest : Str)
    → n < 10 ^ width
    → acc * 10 ^ width + n ≤ limit
    → parse_digits limit acc (fixed_digits width n ++ rest)
      ≡ parse_digits limit (acc * 10 ^ width + n) rest
unfolding fixed_digits
parse_digits-fixed_digits limit zero acc n rest h b =
    let e : acc * 10 ^ 0 + n ≡ acc = omega arith in rw e
parse_digits-fixed_digits limit (suc width) acc n rest h b =
    let p : 10 ^ suc width ≡ 10 ^ width * 10 = pow-suc 10 width in
    let q : acc * 10 ^ suc width ≡ acc * 10 ^ width * 10 = rw p (omega arith) in
    let e : (acc * 10 ^ width + n / 10) * 10 + n % 10 ≡ acc * 10 ^ suc width + n = omega arith in
    rw (append_assoc (fixed_digits width (n / 10)) ((b'0' + n % 10) ∷ []) rest) (
      parse_digits-fixed_digits limit width acc (n / 10) ((b'0' + n % 10) ∷ rest) (omega arith)
        (omega arith)
      ∙ one_digit limit (acc * 10 ^ width + n / 10) (n % 10) rest (omega arith) (omega arith)
      ∙ ap (λ m. parse_digits limit m rest) e)

fixed_digits-head :
    (width n : ℕ) → (d : ℕ) × (s : Str) × (fixed_digits (suc width) n ≡ (b'0' + d) ∷ s)
unfolding fixed_digits
fixed_digits-head zero n = (n % 10, [], refl)
fixed_digits-head (suc width) n =
    let (d, s, e) = fixed_digits-head width (n / 10) in
    (d, s ++ (b'0' + n % 10) ∷ [], ap (λ t. t ++ (b'0' + n % 10) ∷ []) e)

parse_unsigned_digit :
    (limit d : ℕ) (s : Str)
    → parse_unsigned limit ((b'0' + d) ∷ s) ≡ parse_digits limit 0 ((b'0' + d) ∷ s)
unfolding parse_unsigned
parse_unsigned_digit limit d [] = ground arith
parse_unsigned_digit limit d (e ∷ s) = ground arith

-- A number within the limit that fits the width reads back as itself.
pub parse_unsigned-fixed_digits :
    (limit width n : ℕ)
    → n < 10 ^ suc width
    → n ≤ limit
    → parse_unsigned limit (fixed_digits (suc width) n) ≡ some n
unfolding parse_digits
parse_unsigned-fixed_digits limit width n h b =
    let (d, s, e) = fixed_digits-head width n in
    let zero_front : 0 * 10 ^ suc width + n ≡ n = omega arith in
    let whole : parse_digits limit 0 (fixed_digits (suc width) n ++ []) ≡ some n =
      parse_digits-fixed_digits limit (suc width) 0 n [] h (omega arith) ∙ ap some zero_front in
    let bare : parse_digits limit 0 (fixed_digits (suc width) n) ≡ some n =
      rw append-nil at whole in
    rw e (parse_unsigned_digit limit d s ∙ rw e at bare)
