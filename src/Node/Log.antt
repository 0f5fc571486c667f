-- ===== src/Node/Log.antt =====
-- wal/wal_core.rs: the rows that the WAL files hold for a period of a table, from a number on.
use iedb_agent.Base.{
  ℕ, ◌+◌, ◌^◌, ◌≤◌, ◌<◌, ◌≡◌, refl, sym, ap, ◌∙◌, List, [], ◌∷◌, ◌++◌, append_assoc, append-nil,
  Option, none, some,
}
use iedb_agent.Base.Int.{ℤ}
use iedb_agent.Base.Text.{Str, Bytes}
use iedb_agent.Base.Dict.{Dict, insert}
use iedb_agent.Buffer
use iedb_agent.Buffer.{Buffer, get_table}
use iedb_agent.Base.Dict.{lookup}
use iedb_agent.Buffer.Chunk.{Row}
use iedb_agent.Wal.{WalContents}
use iedb_agent.Wal.Serialize.{
  Codec, IsCodec, Decoded, ok, err, serialize_to_file, deserialize_from_file, deserialize-serialize,
}
use iedb_agent.Wal.Files.{
  Disk, wal_file_path, files_above, sort_by_seq, cleanup, files_above-cleanup, AllBelow,
}
use iedb_agent.Wal.Files.Sorted.{Files, files_above-Split, files_above_none}
use iedb_agent.Wal.Contents.{IsSafe, new-IsSafe, rows_in, logged, rows_in-apply_ops}
use iedb_agent.Wal.Manager.{
  replay_contents, replay_bytes, replay_file, replay_files, replay, load_last_snapshot,
}
use iedb_agent.Wal.Manager.Recovery.{sorted-insert}
use iedb_agent.Node.Safe.{replay_bytes-IsSafe}

module _ (codec : Codec) (db name : Str) (t : ℤ) where
  abbrev pub logged_decoded : Decoded WalContents → List Row
  logged_decoded (ok contents) = logged db name t contents.ops
  logged_decoded (err e) = []

  -- An unreadable or corrupted file holds no row.
  abbrev pub logged_file : Option Bytes → List Row
  logged_file none = []
  logged_file (some bytes) = logged_decoded (deserialize_from_file codec bytes)

  abbrev pub logged_files : Files → List Row
  logged_files [] = []
  logged_files ((seq, bytes) ∷ files) = logged_file bytes ++ logged_files files

  -- The rows in the files above a number, in the order of the files.
  unfoldable pub since : ℕ → Dict (Option Bytes) → List Row
  since b wal_dir = logged_files (sort_by_seq (files_above b wal_dir))

  pub logged_files-append :
      (front back : Files) → logged_files (front ++ back) ≡ logged_files front ++ logged_files back
  logged_files-append [] back = refl
  logged_files-append ((seq, bytes) ∷ front) back =
      ap (λ rows. logged_file bytes ++ rows) (logged_files-append front back)
      ∙ sym (append_assoc (logged_file bytes) (logged_files front) (logged_files back))

  pub since_split :
      (a b : ℕ) (wal_dir : Dict (Option Bytes))
      → a ≤ b
      → (earlier : List Row) × (since a wal_dir ≡ earlier ++ since b wal_dir)
  unfolding since
  since_split a b wal_dir h =
      let (front, up, e) = files_above-Split a b wal_dir h in
      (
        logged_files front,
        ap logged_files e ∙ logged_files-append front (sort_by_seq (files_above b wal_dir)),
      )

  pub since_none :
      (n b : ℕ) (wal_dir : Dict (Option Bytes))
      → AllBelow n wal_dir
      → n ≤ b + 1
      → since b wal_dir ≡ []
  unfolding since sort_by_seq
  since_none n b wal_dir below h = rw (files_above_none n b wal_dir below h) refl

  pub since-cleanup :
      (through b : ℕ) (wal_dir : Dict (Option Bytes))
      → through ≤ b
      → since b (cleanup through wal_dir) ≡ since b wal_dir
  unfolding since
  since-cleanup through b wal_dir h = rw (files_above-cleanup through b wal_dir h) refl

  -- One more file above all others.
  pub since-insert :
      (laws : IsCodec codec) (contents : WalContents) (seq b : ℕ) (wal_dir : Dict (Option Bytes))
      → seq < 2 ^ 64
      → AllBelow seq wal_dir
      → b < seq
      → since b (insert (wal_file_path seq) (some (serialize_to_file codec contents)) wal_dir)
        ≡ since b wal_dir ++ logged db name t contents.ops
  unfolding since
  since-insert laws contents seq b wal_dir h below above =
      let bytes = some (serialize_to_file codec contents) in
      let old = sort_by_seq (files_above b wal_dir) in
      ap logged_files (sorted-insert seq bytes b wal_dir h below above)
      ∙ logged_files-append old ((seq, bytes) ∷ [])
      ∙ rw (deserialize-serialize codec contents laws, append-nil (logged db name t contents.ops))
          refl

  rows_in-replay_contents :
      (seq : ℕ) (d : Decoded WalContents) (buffer : Buffer)
      → IsSafe buffer
      → rows_in db name t (replay_contents codec seq d buffer)
        ≡ rows_in db name t buffer ++ logged_decoded d
  unfolding replay_contents
  rows_in-replay_contents seq (ok contents) buffer h =
      rows_in-apply_ops db name t seq contents.ops buffer h
  rows_in-replay_contents seq (err e) buffer h = sym (append-nil (rows_in db name t buffer))

  rows_in-replay_bytes :
      (seq : ℕ) (bytes : Option Bytes) (buffer : Buffer)
      → IsSafe buffer
      → rows_in db name t (replay_bytes codec seq bytes buffer)
        ≡ rows_in db name t buffer ++ logged_file bytes
  unfolding replay_bytes
  rows_in-replay_bytes seq none buffer h = sym (append-nil (rows_in db name t buffer))
  rows_in-replay_bytes seq (some bytes) buffer h =
      rows_in-replay_contents seq (deserialize_from_file codec bytes) buffer h

  rows_in-replay_files :
      (files : Files) (buffer : Buffer)
      → IsSafe buffer
      → rows_in db name t (replay_files codec files buffer)
        ≡ rows_in db name t buffer ++ logged_files files
  unfolding replay_files replay_file
  rows_in-replay_files [] buffer h = sym (append-nil (rows_in db name t buffer))
  rows_in-replay_files ((seq, bytes) ∷ files) buffer h =
      rows_in-replay_files files (replay_bytes codec seq bytes buffer)
        (replay_bytes-IsSafe codec seq bytes buffer h)
      ∙ ap (λ rows. rows ++ logged_files files) (rows_in-replay_bytes seq bytes buffer h)
      ∙ append_assoc (rows_in db name t buffer) (logged_file bytes) (logged_files files)

  -- A replay into an empty buffer gives every period of every table the rows that the files above the
  -- snapshot's number hold for it, in the order of the files and of their operations.
  pub rows_in-replay :
      (read_meta : Bytes → Option ℕ) (disk : Disk)
      → rows_in db name t (replay codec read_meta disk Buffer.new)
        ≡ since (load_last_snapshot read_meta disk) disk.wal_dir
  unfolding replay since get_table lookup
  rows_in-replay read_meta disk =
      rows_in-replay_files
        (sort_by_seq (files_above (load_last_snapshot read_meta disk) disk.wal_dir)) Buffer.new
        new-IsSafe
