-- ===== src/Node/Numbers.antt =====
-- wal/wal_core.rs: a replay, number by number.
use iedb_agent.Base.{
  ℕ, zero, suc, ◌+◌, ◌≤◌, ◌<◌, ◌≡◌, refl, Bool, true, false, ap, ◌∙◌, List, [], ◌∷◌, ◌++◌, Option,
  none, some, arith, ltb, All, ◌==◌, if◌then◌else◌, Option-cases, Bool-cases, inl, inr,
}
use iedb_agent.Base.Int.{ℤ}
use iedb_agent.Base.Text.{Str, Bytes}
use iedb_agent.Base.Dict.{Dict}
use iedb_agent.Buffer
use iedb_agent.Buffer.Chunk.{Row}
use iedb_agent.Wal.Serialize.{Codec}
use iedb_agent.Wal.Files.{Disk, file_seq, files_above, insert_sorted, sort_by_seq, AllBelow}
use iedb_agent.Wal.Files.Sorted.{
  Files, UpTo, Over, insert_sorted_high, files_above-Over, sort_by_seq-All, files_above-unnumbered,
  files_above-listed, files_above-passed,
}
use iedb_agent.Wal.Contents.{rows_in}
use iedb_agent.Wal.Manager.{replay, load_last_snapshot}
use iedb_agent.Node.Log.{logged_files, logged_files-append, since, since_none, rows_in-replay}

abbrev has_number : ℕ → Option ℕ → Bool
has_number n none = false
has_number n (some seq) = seq == n

-- The files of one number, in the order of the directory.
abbrev files_of : ℕ → Dict (Option Bytes) → Files
files_of n [] = []
files_of n ((name, bytes) ∷ entries) =
    if has_number n (file_seq name) then (n, bytes) ∷ files_of n entries else files_of n entries

files_of-UpTo : (n : ℕ) (wal_dir : Dict (Option Bytes)) → UpTo n (files_of n wal_dir)
files_of-UpTo n [] = tt
files_of-UpTo n ((name, bytes) ∷ entries) = ground (arith, files_of-UpTo n entries)

insert_sorted_first :
    (f : ℕ × Option Bytes) (fs : Files)
    → All (λ (g : ℕ × Option Bytes). f.0 ≤ g.0) fs
    → insert_sorted f fs ≡ f ∷ fs
unfolding insert_sorted
insert_sorted_first f [] h = refl
insert_sorted_first f (g ∷ fs) h = ground (arith, h.0)

All-pred : (b : ℕ) (fs : Files) → Over b fs → All (λ (g : ℕ × Option Bytes). b + 1 ≤ g.0) fs
All-pred b [] h = tt
All-pred b (g ∷ fs) h = (omega (arith, h.0), All-pred b fs h.1)

module _ (n : ℕ) (name : Str) (bytes : Option Bytes) (entries : Dict (Option Bytes)) where
  files_of-unnumbered :
      file_seq name ≡ none → files_of n ((name, bytes) ∷ entries) ≡ files_of n entries
  files_of-unnumbered e = rw e refl

  files_of-other :
      (seq : ℕ)
      → file_seq name ≡ some seq
      → (seq == n) ≡ false
      → files_of n ((name, bytes) ∷ entries) ≡ files_of n entries
  files_of-other seq e ne = rw (e, ne) refl

  files_of-this :
      file_seq name ≡ some n
      → files_of n ((name, bytes) ∷ entries) ≡ (n, bytes) ∷ files_of n entries
  files_of-this e = let same : (n == n) ≡ true = ground arith in rw (e, same) refl

-- Sorted, the files above a bound are those of the next number and then those above it.
abbrev Next : ℕ → Dict (Option Bytes) → Type 0
Next b wal_dir =
    sort_by_seq (files_above b wal_dir)
    ≡ files_of (b + 1) wal_dir ++ sort_by_seq (files_above (b + 1) wal_dir)

module _ (b : ℕ) (name : Str) (bytes : Option Bytes) (entries : Dict (Option Bytes))
    (rest : Next b entries) where
  unnumbered-Next : file_seq name ≡ none → Next b ((name, bytes) ∷ entries)
  unnumbered-Next e =
      rw
        (
          files_above-unnumbered b name bytes entries e,
          files_above-unnumbered (b + 1) name bytes entries e,
          files_of-unnumbered (b + 1) name bytes entries e,
        )
        rest

  passed-Next : (seq : ℕ) → file_seq name ≡ some seq → seq ≤ b → Next b ((name, bytes) ∷ entries)
  passed-Next seq e h =
      rw
        (
          files_above-passed b name bytes entries seq e h,
          files_above-passed (b + 1) name bytes entries seq e (omega (arith, h)),
          files_of-other (b + 1) name bytes entries seq e (ground (arith, h)),
        )
        rest

  numbered-Next : file_seq name ≡ some (b + 1) → Next b ((name, bytes) ∷ entries)
  unfolding sort_by_seq
  numbered-Next e =
      let fs = files_above b entries in
      rw
        (
          files_above-listed b name bytes entries (b + 1) e (omega arith),
          files_above-passed (b + 1) name bytes entries (b + 1) e (omega arith),
          files_of-this (b + 1) name bytes entries e,
        )
        (insert_sorted_first (b + 1, bytes) (sort_by_seq fs)
            (All-pred b (sort_by_seq fs)
              (sort_by_seq-All (λ (g : ℕ × Option Bytes). b < g.0) fs (files_above-Over b entries)))
          ∙ ap (λ files. (b + 1, bytes) ∷ files) rest)

  later-Next : (seq : ℕ) → file_seq name ≡ some seq → b + 1 < seq → Next b ((name, bytes) ∷ entries)
  unfolding sort_by_seq
  later-Next seq e h =
      rw
        (
          files_above-listed b name bytes entries seq e (omega (arith, h)),
          files_above-listed (b + 1) name bytes entries seq e h,
          files_of-other (b + 1) name bytes entries seq e (ground (arith, h)),
          rest,
        )
        (insert_sorted_high (b + 1) (seq, bytes) (files_of (b + 1) entries) _ h
          (files_of-UpTo (b + 1) entries))

sort_by_seq-Next : (b : ℕ) (wal_dir : Dict (Option Bytes)) → Next b wal_dir
unfolding files_above sort_by_seq
sort_by_seq-Next b [] = refl
sort_by_seq-Next b ((name, bytes) ∷ entries) =
    let rest = sort_by_seq-Next b entries in
    elim (Option-cases (file_seq name)) [
      | inl e ↦ unnumbered-Next b name bytes entries rest e
      | inr (seq, e) ↦ elim (Bool-cases (ltb b seq)) [
        | inl over ↦ elim (Bool-cases (ltb (b + 1) seq)) [
          | inl later ↦ later-Next b name bytes entries rest seq e (ground (arith, later))
          | inr upto ↦
              let same : seq ≡ b + 1 = ground (arith, over, upto) in
              numbered-Next b name bytes entries rest (e ∙ ap some same)
        ]
        | inr upto ↦ passed-Next b name bytes entries rest seq e (ground (arith, upto))
      ]
    ]

module _ (codec : Codec) (db name : Str) (t : ℤ) (wal_dir : Dict (Option Bytes)) where
  -- The rows in the files of so many numbers, one number after the other.
  abbrev pub rows_from : ℕ → ℕ → List Row
  rows_from first zero = []
  rows_from first (suc count) =
      logged_files codec db name t (files_of first wal_dir) ++ rows_from (first + 1) count

  since_next :
      (b : ℕ)
      → since codec db name t b wal_dir
        ≡ logged_files codec db name t (files_of (b + 1) wal_dir)
          ++ since codec db name t (b + 1) wal_dir
  unfolding since
  since_next b =
      ap (logged_files codec db name t) (sort_by_seq-Next b wal_dir)
      ∙ logged_files-append codec db name t (files_of (b + 1) wal_dir)
          (sort_by_seq (files_above (b + 1) wal_dir))

  since-rows_from :
      (b count : ℕ)
      → AllBelow (b + 1 + count) wal_dir
      → since codec db name t b wal_dir ≡ rows_from (b + 1) count
  since-rows_from b zero below =
      since_none codec db name t (b + 1 + 0) b wal_dir below (omega arith)
  since-rows_from b (suc count) below =
      let e : b + 1 + suc count ≡ b + 1 + 1 + count = omega arith in
      since_next b
      ∙ ap (λ rows. logged_files codec db name t (files_of (b + 1) wal_dir) ++ rows)
          (since-rows_from (b + 1) count (rw e at below))

-- If all files in the WAL directory are numbered below some bound, a replay into an empty buffer gives
-- every period of every table the rows that the files of the numbers above the snapshot's hold for it,
-- from the number right above the snapshot's on, one number after the other up to the bound, an
-- unreadable or corrupted file holding none.
pub rows_in-replay_numbers :
    (codec : Codec) (db name : Str) (t : ℤ) (read_meta : Bytes → Option ℕ) (disk : Disk) (count : ℕ)
    → AllBelow (load_last_snapshot read_meta disk + 1 + count) disk.wal_dir
    → rows_in db name t (replay codec read_meta disk Buffer.new)
      ≡ rows_from codec db name t disk.wal_dir (load_last_snapshot read_meta disk + 1) count
rows_in-replay_numbers codec db name t read_meta disk count below =
    rows_in-replay codec db name t read_meta disk
    ∙ since-rows_from codec db name t disk.wal_dir (load_last_snapshot read_meta disk) count below
