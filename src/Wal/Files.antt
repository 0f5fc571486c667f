-- ===== src/Wal/Files.antt =====
-- wal/wal_core.rs: the names and the numbers of the files in the WAL directory.
pub mod Sorted
use iedb_agent.Base.{
  ℕ, ◌^◌, ◌≤◌, ◌<◌, ◌≡◌, refl, Bool, false, List, [], ◌∷◌, ◌++◌, Option, none, some, arith, leb,
  ltb, max, if◌then◌else◌, ap, ◌∙◌, Bool-cases, inl, inr,
}
use iedb_agent.Base.Int.{u64_max}
use iedb_agent.Base.Text.{Str, Bytes, codes, str_eq, str_eq_iff}
use iedb_agent.Base.Dict.{Dict, lookup}
use iedb_agent.Base.Parse.{
  parse_unsigned, strip_suffix, fixed_digits, strip_suffix-append, parse_unsigned-fixed_digits,
}

-- What the file system keeps for the agent: the WAL directory, each file with its bytes or `none`
-- if it cannot be read, and the bytes of `meta/last_snapshot.json` if it is there.
pub record Disk : Type 0 where
  pub wal_dir : Dict (Option Bytes)
  pub last_snapshot : Option Bytes

-- `{:020}.wal`; a `u64` has at most twenty digits.
unfoldable pub wal_file_path : ℕ → Str
unfolding fixed_digits
wal_file_path seq = fixed_digits 20 seq ++ codes ".wal"

abbrev pub parse_stem : Option Str → Option ℕ
parse_stem none = none
parse_stem (some stem) = parse_unsigned u64_max stem

-- `strip_suffix(".wal")` and then `parse::<u64>()`
unfoldable pub file_seq : Str → Option ℕ
unfolding strip_suffix parse_unsigned
file_seq name = parse_stem (strip_suffix (codes ".wal") name)

-- The number of a WAL file, if it is a `u64`, is read back from the name that it is given.
pub file_seq-wal_file_path : (seq : ℕ) → seq < 2 ^ 64 → file_seq (wal_file_path seq) ≡ some seq
unfolding file_seq wal_file_path
file_seq-wal_file_path seq h = rw (
  strip_suffix-append (codes ".wal") (fixed_digits 20 seq),
  parse_unsigned-fixed_digits u64_max 19 seq (omega arith) (omega arith),
)

abbrev pub max_of : Option ℕ → ℕ → Option ℕ
max_of none seq = some seq
max_of (some m) seq = some (max m seq)

abbrev pub max_with : Option ℕ → Option ℕ → Option ℕ
max_with max_seq none = max_seq
max_with max_seq (some seq) = max_of max_seq seq

unfoldable pub max_wal_seq_from : Option ℕ → Dict (Option Bytes) → Option ℕ
max_wal_seq_from max_seq [] = max_seq
max_wal_seq_from max_seq ((name, _) ∷ entries) =
    max_wal_seq_from (max_with max_seq (file_seq name)) entries

unfoldable pub max_wal_seq : Dict (Option Bytes) → Option ℕ
unfolding max_wal_seq_from
max_wal_seq wal_dir = max_wal_seq_from none wal_dir

abbrev is_above : ℕ → Option ℕ → Bool
is_above bound none = false
is_above bound (some seq) = ltb bound seq

-- The numbered files above a bound.
unfoldable pub files_above : ℕ → Dict (Option Bytes) → List (ℕ × Option Bytes)
files_above flushed_seq [] = []
files_above flushed_seq ((name, bytes) ∷ entries) =
    let rest = files_above flushed_seq entries in
    elim (file_seq name) [
      | none ↦ rest
      | some seq ↦ if ltb flushed_seq seq then (seq, bytes) ∷ rest else rest
    ]

-- `sort_by_key`, which keeps equal keys in order.
unfoldable pub insert_sorted {ℓ} : {A : Type ℓ} → ℕ × A → List (ℕ × A) → List (ℕ × A)
insert_sorted f [] = f ∷ []
insert_sorted f (g ∷ fs) = if ltb g.0 f.0 then g ∷ insert_sorted f fs else f ∷ g ∷ fs

unfoldable pub sort_by_seq {ℓ} : {A : Type ℓ} → List (ℕ × A) → List (ℕ × A)
unfolding insert_sorted
sort_by_seq [] = []
sort_by_seq (f ∷ fs) = insert_sorted f (sort_by_seq fs)

abbrev is_through : ℕ → Option ℕ → Bool
is_through through_seq none = false
is_through through_seq (some seq) = leb seq through_seq

-- Removes the numbered files up to a bound; removals are taken to succeed.
unfoldable pub cleanup : ℕ → Dict (Option Bytes) → Dict (Option Bytes)
cleanup through_seq [] = []
cleanup through_seq ((name, bytes) ∷ entries) =
    let rest = cleanup through_seq entries in
    if is_through through_seq (file_seq name) then rest else (name, bytes) ∷ rest

-- All numbers in the directory are below a bound.
abbrev pub SeqBelow : ℕ → Option ℕ → Type 0
SeqBelow n none = Unit
SeqBelow n (some seq) = seq < n

abbrev pub AllBelow : ℕ → Dict (Option Bytes) → Type 0
AllBelow n [] = Unit
AllBelow n ((name, _) ∷ entries) = SeqBelow n (file_seq name) × AllBelow n entries

-- No file numbered up to the bound is left.
pub lookup-cleanup :
    (through : ℕ) (path : Str) (seq : ℕ) (wal_dir : Dict (Option Bytes))
    → file_seq path ≡ some seq
    → seq ≤ through
    → lookup path (cleanup through wal_dir) ≡ none
unfolding lookup cleanup
lookup-cleanup through path seq [] e h = refl
lookup-cleanup through path seq ((name, bytes) ∷ entries) e h =
    elim (Bool-cases (is_through through (file_seq name))) [
      | inl gone ↦ rw gone (lookup-cleanup through path seq entries e h)
      | inr stays ↦ elim (Bool-cases (str_eq name path)) [
        | inl same ↦
            let e' : file_seq name ≡ some seq = ap file_seq ((str_eq_iff name path).0 same) ∙ e in
            absurd (ground (arith, stays, e'))
        | inr other ↦ rw (stays, other) (lookup-cleanup through path seq entries e h)
      ]
    ]

-- A clean-up through some number takes away none of the files above that number or a higher one, nor
-- changes their order.
pub files_above-cleanup :
    (through flushed : ℕ) (wal_dir : Dict (Option Bytes))
    → through ≤ flushed
    → files_above flushed (cleanup through wal_dir) ≡ files_above flushed wal_dir
unfolding files_above cleanup
files_above-cleanup through flushed [] h = refl
files_above-cleanup through flushed ((name, bytes) ∷ entries) h =
    ground (arith, files_above-cleanup through flushed entries h)

-- After a clean-up through some number, the numbered files above 0 that are left are those that were
-- above that number: no file from 1 up to it is left.
pub cleanup_removes :
    (through : ℕ) (wal_dir : Dict (Option Bytes))
    → files_above 0 (cleanup through wal_dir) ≡ files_above through wal_dir
unfolding files_above cleanup
cleanup_removes through [] = refl
cleanup_removes through ((name, bytes) ∷ entries) = ground (arith, cleanup_removes through entries)
