-- ===== src/Base/Decimal.antt =====
-- Decimal numbers without leading zeros, as `{}` prints them.
use iedb_agent.Base.Tests.{ltb, lt→ltb, if◌then◌else◌, Bool-cases}
use iedb_agent.Base.Text.{Str}
use iedb_agent.Base.Parse.{parse_digits, one_digit}
use mathlib.Core.Logic.{inl, inr}
use Prim.Native.Nat.{ℕ, zero, suc, ◌+◌, ◌*◌, ◌/◌, ◌%◌, ◌^◌, ◌≤◌, ◌<◌}
use mathlib.Core.Path.{◌≡◌, ap, ◌∙◌}
use mathlib.Core.Option.{some}
use mathlib.Core.List.{[], ◌∷◌, ◌++◌, append_assoc}
use native.Mathlib.Omega.{arith}
use native.Mathlib.Nat.{pow-suc}

-- At most as many digits as the first number says.
digits : ℕ → ℕ → Str
digits zero n = []
digits (suc width) n =
    let front = digits width (n / 10) in
    if ltb n 10 then (b'0' + n) ∷ [] else front ++ (b'0' + n % 10) ∷ []

-- Of a `u64` or `usize`, which have at most twenty digits.
unfoldable pub decimal : ℕ → Str
unfolding digits
decimal n = digits 20 n

parse_digits-digits :
    (limit width n : ℕ) (rest : Str)
    → n < 10 ^ suc width
    → n ≤ limit
    → parse_digits limit 0 (digits (suc width) n ++ rest) ≡ parse_digits limit n rest
unfolding digits
parse_digits-digits limit zero n rest h b =
    let low : n < 10 = omega arith in
    let e : 0 * 10 + n ≡ n = omega arith in
    rw (lt→ltb n 10 low)
      (one_digit limit 0 n rest low (omega arith) ∙ ap (λ m. parse_digits limit m rest) e)
parse_digits-digits limit (suc w) n rest h b =
    let front =
      parse_digits-digits limit w (n / 10) ((b'0' + n % 10) ∷ rest)
        (omega (arith, pow-suc 10 (suc w))) (omega arith) in
    let e : n / 10 * 10 + n % 10 ≡ n = omega arith in
    let e' : 0 * 10 + n ≡ n = omega arith in
    elim (Bool-cases (ltb n 10)) [
      | inl low ↦ rw low (
          one_digit limit 0 n rest (ground (arith, low)) (omega arith)
          ∙ ap (λ m. parse_digits limit m rest) e')
      | inr high ↦
          rw (high, append_assoc (digits (suc w) (n / 10)) ((b'0' + n % 10) ∷ []) rest)
            (front
              ∙ one_digit limit (n / 10) (n % 10) rest (omega arith) (omega arith)
              ∙ ap (λ m. parse_digits limit m rest) e)
    ]

-- A number of 64 bits reads back.
pub parse_digits-decimal :
    (limit n : ℕ) → n < 2 ^ 64 → n ≤ limit → parse_digits limit 0 (decimal n ++ []) ≡ some n
unfolding decimal parse_digits
parse_digits-decimal limit n h b = parse_digits-digits limit 19 n [] (omega arith) b
