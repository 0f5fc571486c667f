-- ===== src/Base/Utf8.antt =====
-- `std::str::from_utf8`: the code points of well-formed bytes, and nothing for others.
use Prim.Native.Nat.{ℕ, zero, suc, ◌+◌, ◌-◌, ◌*◌}
use mathlib.Core.Bool.{◌&&◌}
use mathlib.Core.Option.{Option, none, some}
use mathlib.Core.List.{[], ◌∷◌, ◌++◌}
use iedb_agent.Base.Tests.{ltb, leb, ◌==◌, if◌then◌else◌}
use iedb_agent.Base.Text.{Str, Bytes}

-- How many bytes are still to come, the range of the next one, and the bits so far.
pub record Utf8State : Type 0 where
  pub need : ℕ
  pub low : ℕ
  pub high : ℕ
  pub bits : ℕ

abbrev pub start : Utf8State
start = record { need = 0; low = 0; high = 0; bits = 0 }

abbrev expect : ℕ → ℕ → ℕ → ℕ → Option (Utf8State × Str)
expect need low high bits = some (record { need = need; low = low; high = high; bits = bits }, [])

first_byte : ℕ → Option (Utf8State × Str)
first_byte b =
    if ltb b 0x80
    then some (start, b ∷ [])
    else if leb 0xC2 b && leb b 0xDF
    then expect 1 0x80 0xBF (b - 0xC0)
    else if b == 0xE0
    then expect 2 0xA0 0xBF 0
    else if b == 0xED
    then expect 2 0x80 0x9F 0xD
    else if leb 0xE1 b && leb b 0xEF
    then expect 2 0x80 0xBF (b - 0xE0)
    else if b == 0xF0
    then expect 3 0x90 0xBF 0
    else if leb 0xF1 b && leb b 0xF3
    then expect 3 0x80 0xBF (b - 0xF0)
    else if b == 0xF4
    then expect 3 0x80 0x8F 4
    else none

later_byte : ℕ → Utf8State → ℕ → Option (Utf8State × Str)
later_byte need s b =
    let bits = s.bits * 64 + (b - 0x80) in
    if leb s.low b && leb b s.high
    then (if need == 0 then some (start, bits ∷ []) else expect need 0x80 0xBF bits)
    else none

any_byte : ℕ → Utf8State → ℕ → Option (Utf8State × Str)
unfolding first_byte later_byte
any_byte zero s b = first_byte b
any_byte (suc need) s b = later_byte need s b

abbrev put_front : Str → Option Str → Option Str
put_front out none = none
put_front out (some s) = some (out ++ s)

decode : Utf8State → Bytes → Option Str
unfolding any_byte
decode s [] = if s.need == 0 then some [] else none
decode s (b ∷ bs) = elim (any_byte s.need s b) [
  | none ↦ none
  | some (t, out) ↦ put_front out (decode t bs)
]

unfoldable pub from_utf8 : Bytes → Option Str
unfolding decode
from_utf8 bytes = decode start bytes
