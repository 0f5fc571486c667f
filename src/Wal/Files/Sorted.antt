-- ===== src/Wal/Files/Sorted.antt =====
-- wal/wal_core.rs: the files that a replay reads, for one bound and a higher one.
use iedb_agent.Base.{
  ℕ, ◌+◌, ◌≤◌, ◌<◌, ◌≡◌, refl, List, [], ◌∷◌, ◌++◌, Option, none, some, arith, All, ltb, Bool-cases,
  Option-cases, inl, inr,
}
use iedb_agent.Base.Text.{Str, Bytes}
use iedb_agent.Base.Dict.{Dict}
use iedb_agent.Wal.Files.{file_seq, files_above, insert_sorted, sort_by_seq, AllBelow}

abbrev pub Files : Type 0
Files = List (ℕ × Option Bytes)

abbrev pub UpTo : ℕ → Files → Type 0
UpTo b fs = All (λ (f : ℕ × Option Bytes). f.0 ≤ b) fs

abbrev pub Over : ℕ → Files → Type 0
Over b fs = All (λ (f : ℕ × Option Bytes). b < f.0) fs

-- Ascending by number.
abbrev pub IsAscending : Files → Type 0
IsAscending [] = Unit
IsAscending (f ∷ fs) = All (λ (g : ℕ × Option Bytes). f.0 ≤ g.0) fs × IsAscending fs

module _ {κ} (P : ℕ × Option Bytes → Type κ) where
  insert_sorted-All :
      (f : ℕ × Option Bytes) (fs : Files) → P f → All P fs → All P (insert_sorted f fs)
  unfolding insert_sorted
  insert_sorted-All f [] h o = (h, tt)
  insert_sorted-All f (g ∷ fs) h o = elim (Bool-cases (ltb g.0 f.0)) [
    | inl lower ↦ rw lower (o.0, insert_sorted-All f fs h o.1)
    | inr other ↦ rw other (h, o)
  ]

  pub sort_by_seq-All : (fs : Files) → All P fs → All P (sort_by_seq fs)
  unfolding sort_by_seq
  sort_by_seq-All [] o = tt
  sort_by_seq-All (f ∷ fs) o = insert_sorted-All f (sort_by_seq fs) o.0 (sort_by_seq-All fs o.1)

All-le :
    (low high : ℕ) (fs : Files)
    → low ≤ high
    → All (λ (g : ℕ × Option Bytes). high ≤ g.0) fs
    → All (λ (g : ℕ × Option Bytes). low ≤ g.0) fs
All-le low high [] h o = tt
All-le low high (g ∷ fs) h o = (omega (arith, o.0), All-le low high fs h o.1)

insert_sorted-IsAscending :
    (f : ℕ × Option Bytes) (fs : Files) → IsAscending fs → IsAscending (insert_sorted f fs)
unfolding insert_sorted
insert_sorted-IsAscending f [] h = (tt, tt)
insert_sorted-IsAscending f (g ∷ fs) h = elim (Bool-cases (ltb g.0 f.0)) [
  | inl lower ↦ rw lower (
    insert_sorted-All (λ (e : ℕ × Option Bytes). g.0 ≤ e.0) f fs (ground (arith, lower)) h.0,
    insert_sorted-IsAscending f fs h.1,
  )
  | inr other ↦
      let le : f.0 ≤ g.0 = ground (arith, other) in rw other ((le, All-le f.0 g.0 fs le h.0), h)
]

pub sort_by_seq-IsAscending : (fs : Files) → IsAscending (sort_by_seq fs)
unfolding sort_by_seq
sort_by_seq-IsAscending [] = tt
sort_by_seq-IsAscending (f ∷ fs) =
    insert_sorted-IsAscending f (sort_by_seq fs) (sort_by_seq-IsAscending fs)

pub insert_sorted_high :
    (b : ℕ) (f : ℕ × Option Bytes) (front back : Files)
    → b < f.0
    → UpTo b front
    → insert_sorted f (front ++ back) ≡ front ++ insert_sorted f back
unfolding insert_sorted
insert_sorted_high b f [] back h u = refl
insert_sorted_high b f (g ∷ front) back h u =
    ground (arith, insert_sorted_high b f front back h u.1)

insert_sorted_low :
    (b : ℕ) (f : ℕ × Option Bytes) (front back : Files)
    → f.0 ≤ b
    → Over b back
    → insert_sorted f (front ++ back) ≡ insert_sorted f front ++ back
unfolding insert_sorted
insert_sorted_low b f [] [] h o = refl
insert_sorted_low b f [] (g ∷ back) h o = ground (arith, o.0)
insert_sorted_low b f (g ∷ front) back h o = ground (arith, insert_sorted_low b f front back h o)

pub files_above-Over : (b : ℕ) (wal_dir : Dict (Option Bytes)) → Over b (files_above b wal_dir)
unfolding files_above
files_above-Over b [] = tt
files_above-Over b ((name, bytes) ∷ entries) = ground (arith, files_above-Over b entries)

-- The sorted files above a bound, between those up to a higher bound and those above that.
abbrev pub Split : ℕ → ℕ → Dict (Option Bytes) → Type 0
Split a b wal_dir =
    (front : Files) × UpTo b front
    × (sort_by_seq (files_above a wal_dir) ≡ front ++ sort_by_seq (files_above b wal_dir))

module _ (b : ℕ) (name : Str) (bytes : Option Bytes) (entries : Dict (Option Bytes)) where
  pub files_above-unnumbered :
      file_seq name ≡ none → files_above b ((name, bytes) ∷ entries) ≡ files_above b entries
  unfolding files_above
  files_above-unnumbered e = ground (arith, e)

  pub files_above-listed :
      (seq : ℕ)
      → file_seq name ≡ some seq
      → b < seq
      → files_above b ((name, bytes) ∷ entries) ≡ (seq, bytes) ∷ files_above b entries
  unfolding files_above
  files_above-listed seq e h = ground (arith, e)

  pub files_above-passed :
      (seq : ℕ)
      → file_seq name ≡ some seq
      → seq ≤ b
      → files_above b ((name, bytes) ∷ entries) ≡ files_above b entries
  unfolding files_above
  files_above-passed seq e h = ground (arith, e)

module _ (a b : ℕ) (name : Str) (bytes : Option Bytes) (entries : Dict (Option Bytes)) (h : a ≤ b)
    (rest : Split a b entries) where
  numbered-Split : (seq : ℕ) → file_seq name ≡ some seq → Split a b ((name, bytes) ∷ entries)
  unfolding sort_by_seq
  numbered-Split seq e =
      let (front, up, same) = rest in
      let f : ℕ × Option Bytes = (seq, bytes) in
      elim (Bool-cases (ltb b seq)) [
        | inl above_b ↦ (
          front,
          up,
          rw
              (
                files_above-listed a name bytes entries seq e (ground (arith, above_b)),
                files_above-listed b name bytes entries seq e (ground (arith, above_b)),
                same,
              )
              (insert_sorted_high b f front _ (ground (arith, above_b)) up),
        )
        | inr upto_b ↦ elim (Bool-cases (ltb a seq)) [
          | inl above_a ↦ (
            insert_sorted f front,
            insert_sorted-All (λ (g : ℕ × Option Bytes). g.0 ≤ b) f front (ground (arith, upto_b))
                up,
            rw
                (
                  files_above-listed a name bytes entries seq e (ground (arith, above_a)),
                  files_above-passed b name bytes entries seq e (ground (arith, upto_b)),
                  same,
                )
                (insert_sorted_low b f front _ (ground (arith, upto_b)) (
                  sort_by_seq-All (λ (g : ℕ × Option Bytes). b < g.0) (files_above b entries)
                    (files_above-Over b entries))),
          )
          | inr upto_a ↦ (
            front,
            up,
            rw
                (
                  files_above-passed a name bytes entries seq e (ground (arith, upto_a)),
                  files_above-passed b name bytes entries seq e (ground (arith, upto_b)),
                )
                same,
          )
        ]
      ]

pub files_above-Under :
    (n b : ℕ) (wal_dir : Dict (Option Bytes))
    → AllBelow n wal_dir
    → All (λ (f : ℕ × Option Bytes). f.0 < n) (files_above b wal_dir)
unfolding files_above
files_above-Under n b [] below = tt
files_above-Under n b ((name, bytes) ∷ entries) below =
    ground (arith, below.0, files_above-Under n b entries below.1)

-- Sorted, the files above a higher bound are the last of those above a lower one.
pub files_above-Split : (a b : ℕ) (wal_dir : Dict (Option Bytes)) → a ≤ b → Split a b wal_dir
unfolding files_above sort_by_seq
files_above-Split a b [] h = ([], tt, refl)
files_above-Split a b ((name, bytes) ∷ entries) h =
    let (front, up, same) = files_above-Split a b entries h in
    elim (Option-cases (file_seq name)) [
      | inl e ↦ (
        front,
        up,
        rw
            (
              files_above-unnumbered a name bytes entries e,
              files_above-unnumbered b name bytes entries e,
            )
            same,
      )
      | inr (seq, e) ↦ numbered-Split a b name bytes entries h (front, up, same) seq e
    ]

-- Nothing is above a bound that all files are up to.
pub files_above_none :
    (n b : ℕ) (wal_dir : Dict (Option Bytes))
    → AllBelow n wal_dir
    → n ≤ b + 1
    → files_above b wal_dir ≡ []
unfolding files_above
files_above_none n b [] below h = refl
files_above_none n b ((name, bytes) ∷ entries) below h =
    ground (arith, below.0, files_above_none n b entries below.1 h)
