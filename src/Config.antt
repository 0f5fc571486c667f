-- ===== src/Config.antt =====
-- config.rs: the configuration, and the durations and sizes that it spells as texts.
pub mod Units
pub mod Defaults
use iedb_agent.Base.{
  ℕ, ◌+◌, ◌-◌, ◌*◌, ◌%◌, ◌^◌, Bool, true, false, ◌&&◌, ◌||◌, List, [], ◌∷◌, ◌++◌, map, Option, none,
  some, ltb, leb, ◌==◌, if◌then◌else◌, ap, ◌≡◌,
}
use mathlib.Core.List.{reverse}
use iedb_agent.Base.Int.{ℤ, pos, negsuc, ◌*ℤ◌, wrap_i64, sub_ℕ}
use iedb_agent.Base.Text.{Str, codes}
use iedb_agent.Base.Parse.{parse_unsigned, parse_digits, strip_suffix}

pub record S3Config : Type 0 where
  pub bucket : Str
  pub region : Str
  pub endpoint : Str
  pub access_key : Str
  pub secret_key : Str

-- The sections [server], [data], [wal], [flush], [s3], [iotedgedb] and [agent] in one record.
pub record Config : Type 0 where
  pub port : ℕ
  pub max_body_bytes : ℕ
  pub data_dir : Str
  pub flush_interval_secs : ℕ
  pub max_write_buffer_ops : ℕ
  pub snapshot_interval : Str
  pub backend : Str
  pub memory_limit : Str
  pub s3 : Option S3Config
  pub iotedgedb_url : Str
  pub iotedgedb_token : Option Str
  pub agent_id : Str
  pub agent_url : Option Str

-- `IotedgedbConfig::auth_header`
unfoldable pub auth_header : Config → Option Str
auth_header config = elim config.iotedgedb_token [
  | none ↦ none
  | some t ↦ some (codes "Bearer " ++ t)
]

-- The property White_Space.
is_whitespace : ℕ → Bool
is_whitespace c =
    (leb 9 c && leb c 13)
    || (c == 32
        || (c == 0x85
            || (c == 0xA0
                || (c == 0x1680
                    || ((leb 0x2000 c && leb c 0x200A)
                        || (c == 0x2028
                            || (c == 0x2029 || (c == 0x202F || (c == 0x205F || c == 0x3000)))))))))

trim_start : Str → Str
trim_start [] = []
trim_start (c ∷ s) = let rest = trim_start s in if is_whitespace c then rest else c ∷ s

unfoldable pub trim : Str → Str
unfolding trim_start is_whitespace
trim s = reverse (trim_start (reverse (trim_start s)))

abbrev pub i64_of : Bool → Option ℕ → Option ℤ
i64_of negative none = none
i64_of true (some n) = some (sub_ℕ 0 n)
i64_of false (some n) = some (pos n)

-- `parse::<i64>`
unfoldable pub parse_i64 : Str → Option ℤ
unfolding parse_unsigned parse_digits
parse_i64 [] = none
parse_i64 (c ∷ []) = i64_of false (parse_unsigned (2 ^ 63 - 1) (c ∷ []))
parse_i64 (c ∷ d ∷ s) =
    if c == b'-'
    then i64_of true (parse_digits (2 ^ 63) 0 (d ∷ s))
    else i64_of false (parse_unsigned (2 ^ 63 - 1) (c ∷ d ∷ s))

abbrev pub i64_or : Option ℤ → ℤ → ℤ
i64_or none d = d
i64_or (some n) d = n

-- `if s.ends_with('m') { s[..s.len()-1] … }`: what stands before the unit, if it ends in the unit.
unfoldable pub parse_duration : Str → ℤ
unfolding trim parse_i64 strip_suffix wrap_i64 ◌*ℤ◌
parse_duration s =
    let t = trim s in
    elim (strip_suffix (codes "m") t) [
      | some minutes ↦ wrap_i64 (i64_or (parse_i64 minutes) (pos 10) *ℤ pos 60)
      | none ↦ elim (strip_suffix (codes "s") t) [
        | some seconds ↦ i64_or (parse_i64 seconds) (pos 600)
        | none ↦ pos 600
      ]
    ]

-- `to_uppercase`, of ASCII: no other character has an upper case with M, G or B or a digit in it.
abbrev to_uppercase : Str → Str
to_uppercase = map (λ c. if leb b'a' c && leb c b'z' then c - 32 else c)

abbrev pub usize_or : Option ℕ → ℕ → ℕ
usize_or none d = d
usize_or (some n) d = n

-- A product that leaves the machine's `usize` wraps at `usize_mod`.
unfoldable pub parse_bytes : ℕ → Str → ℕ
unfolding trim strip_suffix parse_unsigned
parse_bytes usize_mod s =
    let t = to_uppercase (trim s) in
    elim (strip_suffix (codes "MB") t) [
      | some n ↦ (usize_or (parse_unsigned (usize_mod - 1) n) 512 * (1024 * 1024)) % usize_mod
      | none ↦ elim (strip_suffix (codes "GB") t) [
        | some n ↦
            (usize_or (parse_unsigned (usize_mod - 1) n) 1 * (1024 * 1024 * 1024)) % usize_mod
        | none ↦ (512 * (1024 * 1024)) % usize_mod
      ]
    ]

unfoldable pub snapshot_interval_secs : Config → ℤ
unfolding parse_duration
snapshot_interval_secs config = parse_duration config.snapshot_interval

unfoldable pub memory_limit_bytes : ℕ → Config → ℕ
unfolding parse_bytes
memory_limit_bytes usize_mod config = parse_bytes usize_mod config.memory_limit
