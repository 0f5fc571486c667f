-- ===== src/Wal/Manager/Recovery.antt =====
-- wal/wal_core.rs: the replay of the file that was written last.
use iedb_agent.Base.{
  ℕ, ◌^◌, ◌<◌, ◌≡◌, refl, ap, ◌∙◌, List, [], ◌∷◌, ◌++◌, Option, some, arith, All, Bool-cases, inl,
  inr,
}
use mathlib.Core.List.{foldl-append}
use iedb_agent.Base.Text.{Bytes, str_eq, str_eq_iff}
use iedb_agent.Base.Dict.{Dict, insert, update}
use iedb_agent.Buffer.{Buffer}
use iedb_agent.Wal.{WalContents}
use iedb_agent.Wal.Apply.{apply_ops}
use iedb_agent.Wal.Serialize.{Codec, IsCodec, serialize_to_file, deserialize-serialize}
use iedb_agent.Wal.Files.{
  Disk, wal_file_path, file_seq, file_seq-wal_file_path, files_above, insert_sorted, sort_by_seq,
  AllBelow,
}
use iedb_agent.Wal.Manager.{replay_file, replay_files, replay, load_last_snapshot}

-- A name that no file has goes to the end of the directory.
pub insert_fresh :
    (seq : ℕ) (bytes : Option Bytes) (wal_dir : Dict (Option Bytes))
    → seq < 2 ^ 64
    → AllBelow seq wal_dir
    → insert (wal_file_path seq) bytes wal_dir ≡ wal_dir ++ (wal_file_path seq, bytes) ∷ []
unfolding insert
insert_fresh seq bytes [] h below = refl
insert_fresh seq bytes ((name, b) ∷ entries) h below =
    elim (Bool-cases (str_eq name (wal_file_path seq))) [
      | inl same ↦
          let numbered : file_seq name ≡ some seq =
            ap file_seq ((str_eq_iff name (wal_file_path seq)).0 same)
            ∙ file_seq-wal_file_path seq h in
          absurd (ground (arith, numbered, below.0))
      | inr other ↦
          rw (other, update) (ap (◌∷◌ (name, b)) (insert_fresh seq bytes entries h below.1))
    ]

module _ (seq : ℕ) (bytes : Option Bytes) (bound : seq < 2 ^ 64) where
  files_above-append :
      (flushed : ℕ) (wal_dir : Dict (Option Bytes))
      → flushed < seq
      → files_above flushed (wal_dir ++ (wal_file_path seq, bytes) ∷ [])
        ≡ files_above flushed wal_dir ++ (seq, bytes) ∷ []
  unfolding files_above
  files_above-append flushed [] h = ground (arith, file_seq-wal_file_path seq bound)
  files_above-append flushed ((name, b) ∷ entries) h =
      ground (arith, files_above-append flushed entries h)

abbrev KeysBelow : ℕ → List (ℕ × Option Bytes) → Type 0
KeysBelow n fs = All (λ (f : ℕ × Option Bytes). f.0 < n) fs

files_above-KeysBelow :
    (n flushed : ℕ) (wal_dir : Dict (Option Bytes))
    → AllBelow n wal_dir
    → KeysBelow n (files_above flushed wal_dir)
unfolding files_above
files_above-KeysBelow n flushed [] h = tt
files_above-KeysBelow n flushed ((name, b) ∷ entries) h =
    ground (arith, h.0, files_above-KeysBelow n flushed entries h.1)

insert_sorted-append :
    (f g : ℕ × Option Bytes) (fs : List (ℕ × Option Bytes))
    → f.0 < g.0
    → insert_sorted f (fs ++ g ∷ []) ≡ insert_sorted f fs ++ g ∷ []
unfolding insert_sorted
insert_sorted-append f g [] h = ground arith
insert_sorted-append f g (e ∷ fs) h = ground (arith, insert_sorted-append f g fs h)

-- A file above all others is sorted to the end.
sort_by_seq-append :
    (g : ℕ × Option Bytes) (fs : List (ℕ × Option Bytes))
    → KeysBelow g.0 fs
    → sort_by_seq (fs ++ g ∷ []) ≡ sort_by_seq fs ++ g ∷ []
unfolding sort_by_seq insert_sorted
sort_by_seq-append g [] h = refl
sort_by_seq-append g (f ∷ fs) h =
    rw (sort_by_seq-append g fs h.1) (insert_sorted-append f g (sort_by_seq fs) h.0)

-- The files that a replay reads, with one more above all others, end with that one.
pub sorted-insert :
    (seq : ℕ) (bytes : Option Bytes) (flushed : ℕ) (wal_dir : Dict (Option Bytes))
    → seq < 2 ^ 64
    → AllBelow seq wal_dir
    → flushed < seq
    → sort_by_seq (files_above flushed (insert (wal_file_path seq) bytes wal_dir))
      ≡ sort_by_seq (files_above flushed wal_dir) ++ (seq, bytes) ∷ []
sorted-insert seq bytes flushed wal_dir h below above =
    rw
      (insert_fresh seq bytes wal_dir h below, files_above-append seq bytes h flushed wal_dir above)
      (sort_by_seq-append (seq, bytes) (files_above flushed wal_dir)
        (files_above-KeysBelow seq flushed wal_dir below))

module _ (codec : Codec) (laws : IsCodec codec) (read_meta : Bytes → Option ℕ) where
  replay_written :
      (contents : WalContents) (seq : ℕ) (buffer : Buffer)
      → replay_file codec buffer (seq, some (serialize_to_file codec contents))
        ≡ apply_ops seq contents.ops buffer
  unfolding replay_file
  replay_written contents seq buffer = rw (deserialize-serialize codec contents laws)

  -- For a codec that round-trips: with one more file, whose number is a `u64` above all others and
  -- above the snapshot's, a replay does what it did and then applies the operations of that file.
  pub replay-insert :
      (contents : WalContents) (seq : ℕ) (disk : Disk) (buffer : Buffer)
      → seq < 2 ^ 64
      → AllBelow seq disk.wal_dir
      → load_last_snapshot read_meta disk < seq
      → let bytes = some (serialize_to_file codec contents) in
        replay codec read_meta
          (record disk { wal_dir = insert (wal_file_path seq) bytes disk.wal_dir })
          buffer
        ≡ apply_ops seq contents.ops (replay codec read_meta disk buffer)
  unfolding replay load_last_snapshot
  replay-insert contents seq disk buffer h below above =
      let bytes = some (serialize_to_file codec contents) in
      let flushed = load_last_snapshot read_meta disk in
      let old = files_above flushed disk.wal_dir in
      let sorted = sorted-insert seq bytes flushed disk.wal_dir h below above in
      rw sorted (
        unfold replay_files in
        foldl-append (replay_file codec) buffer (sort_by_seq old) ((seq, bytes) ∷ [])
        ∙ replay_written contents seq (replay_files codec (sort_by_seq old) buffer))
