-- ===== src/Node/Covered/Replayed.antt =====
-- wal/wal_core.rs: a replay, file by file, and the files that cover the chunks it makes.
use iedb_agent.Base.{
  ℕ, ◌-◌, ◌≤◌, ◌<◌, ◌≡◌, refl, sym, ap, ◌∙◌, List, [], ◌∷◌, ◌++◌, append_assoc, append-nil, Option,
  none, some, arith, ltb, All, if◌then◌else◌,
}
use iedb_agent.Base.Int.{ℤ, u64_max}
use iedb_agent.Base.Text.{Str, Bytes}
use iedb_agent.Base.Dict.{Dict}
use iedb_agent.Buffer.{Buffer}
use iedb_agent.Buffer.Chunk.{Row, Chunk}
use iedb_agent.Buffer.Everywhere.{Everywhere}
use iedb_agent.Wal.{WalContents}
use iedb_agent.Wal.Serialize.{Codec, Decoded, ok, err, deserialize_from_file}
use iedb_agent.Wal.Files.{files_above, sort_by_seq}
use iedb_agent.Wal.Files.Sorted.{
  Files, UpTo, Over, IsAscending, sort_by_seq-All, files_above-Over, files_above-Split,
}
use iedb_agent.Wal.Cells.{cell}
use iedb_agent.Wal.Contents.{IsSafe}
use iedb_agent.Wal.Manager.{replay_contents, replay_bytes, replay_file, replay_files}
use iedb_agent.Node.Log.{logged_decoded, logged_file, logged_files, since}
use iedb_agent.Node.Safe.{replay_bytes-IsSafe}
use iedb_agent.Node.Covered.{IsFrom, IsOn, numbered, unused, apply_ops-IsOn}
use iedb_agent.Node.Covered.Flushed.{apply_ops-IsFrom}

append-empty : (xs ys : List Row) → xs ++ ys ≡ [] → (xs ≡ []) × (ys ≡ [])
append-empty [] ys e = (refl, e)
append-empty (x ∷ xs) ys e = ground (arith, e)

module _ (codec : Codec) (db name : Str) (t : ℤ) where
  -- The rows of those files of a list that are above a number.
  abbrev pub rows_above : Files → ℕ → List Row
  rows_above [] b = []
  rows_above ((seq, bytes) ∷ files) b =
      (if ltb b seq then logged_file codec db name t bytes else []) ++ rows_above files b

  rows_above-append :
      (front back : Files) (b : ℕ)
      → rows_above (front ++ back) b ≡ rows_above front b ++ rows_above back b
  rows_above-append [] back b = refl
  rows_above-append ((seq, bytes) ∷ front) back b =
      let own = if ltb b seq then logged_file codec db name t bytes else [] in
      ap (λ rows. own ++ rows) (rows_above-append front back b)
      ∙ sym (append_assoc own (rows_above front b) (rows_above back b))

  rows_above-higher :
      (files : Files) (a b : ℕ) → a ≤ b → rows_above files a ≡ [] → rows_above files b ≡ []
  rows_above-higher [] a b h e = refl
  rows_above-higher ((seq, bytes) ∷ files) a b h e =
      let (own, rest) = append-empty _ (rows_above files a) e in
      ground (arith, own, rows_above-higher files a b h rest)

  rows_above-Over :
      (files : Files) (b : ℕ)
      → Over b files
      → rows_above files b ≡ logged_files codec db name t files
  rows_above-Over [] b o = refl
  rows_above-Over ((seq, bytes) ∷ files) b o = ground (arith, o.0, rows_above-Over files b o.1)

  rows_above-UpTo : (files : Files) (b : ℕ) → UpTo b files → rows_above files b ≡ []
  rows_above-UpTo [] b o = refl
  rows_above-UpTo ((seq, bytes) ∷ files) b o = ground (arith, o.0, rows_above-UpTo files b o.1)

  -- The files above the snapshot that are above a higher number.
  pub rows_above-sorted :
      (a b : ℕ) (wal_dir : Dict (Option Bytes))
      → a ≤ b
      → rows_above (sort_by_seq (files_above a wal_dir)) b ≡ since codec db name t b wal_dir
  unfolding since
  rows_above-sorted a b wal_dir h =
      let (front, up, e) = files_above-Split a b wal_dir h in
      let back = sort_by_seq (files_above b wal_dir) in
      ap (λ files. rows_above files b) e
      ∙ rows_above-append front back b
      ∙ rw (rows_above-UpTo front b up) (
          rows_above-Over back b
            (sort_by_seq-All (λ (f : ℕ × Option Bytes). b < f.0) _ (files_above-Over b wal_dir)))

  abbrev pub On : (seq : ℕ) → 1 ≤ seq → seq < u64_max → Files → List Row → Chunk → Type 0
  On seq positive high files = IsOn db name t seq (rows_above files) positive high

  raised :
      (low seq : ℕ) (positive : _) (high : _) (positive' : _) (high' : _) (files : Files)
      (c : Chunk)
      → low ≤ seq
      → On low positive high files [] c
      → On seq positive' high' files [] c
  raised low seq positive high positive' high' files c h (numbered up e) = numbered (omega arith) e
  raised low seq positive high positive' high' files c h (unused top nothing new empty) =
      unused top nothing (rows_above-higher files (low - 1) (seq - 1) (omega arith) new) empty

  passed :
      (seq : ℕ) (bytes : Option Bytes) (positive : _) (high : _) (files : Files) (c : Chunk)
      → On seq positive high files (logged_file codec db name t bytes) c
      → On seq positive high (files ++ (seq, bytes) ∷ []) [] c
  passed seq bytes positive high files c (numbered up e) = numbered up (
      append-nil _
      ∙ rows_above-append files ((seq, bytes) ∷ []) (c.min_wal_seq - 1)
      ∙ (ground (arith, append-nil (logged_file codec db name t bytes)))
      ∙ e)
  passed seq bytes positive high files c (unused top nothing new empty) =
      unused top refl
        (rows_above-append files ((seq, bytes) ∷ []) (seq - 1) ∙ ground (arith, new, nothing)) empty

  replay_contents-IsOn :
      (seq : ℕ) (positive : _) (high : _) (files : Files) (d : Decoded WalContents)
      (buffer : Buffer)
      → IsSafe buffer
      → On seq positive high files [] (cell db name t buffer)
      → On seq positive high files
          (logged_decoded codec db name t d)
          (cell db name t (replay_contents codec seq d buffer))
  unfolding replay_contents
  replay_contents-IsOn seq positive high files (ok contents) buffer safe h =
      apply_ops-IsOn db name t seq (rows_above files) positive high [] contents.ops buffer safe h
  replay_contents-IsOn seq positive high files (err e) buffer safe h = h

  replay_bytes-IsOn :
      (seq : ℕ) (positive : _) (high : _) (files : Files) (bytes : Option Bytes) (buffer : Buffer)
      → IsSafe buffer
      → On seq positive high files [] (cell db name t buffer)
      → On seq positive high files
          (logged_file codec db name t bytes)
          (cell db name t (replay_bytes codec seq bytes buffer))
  unfolding replay_bytes
  replay_bytes-IsOn seq positive high files none buffer safe h = h
  replay_bytes-IsOn seq positive high files (some bytes) buffer safe h =
      replay_contents-IsOn seq positive high files (deserialize_from_file codec bytes) buffer safe h

  pub replay_files-IsOn :
      (low next : ℕ) (positive : 1 ≤ low) (high : low < u64_max) (before files : Files)
      (buffer : Buffer)
      → IsSafe buffer
      → next ≤ u64_max
      → IsAscending files
      → All (λ (f : ℕ × Option Bytes). low ≤ f.0) files
      → All (λ (f : ℕ × Option Bytes). f.0 < next) files
      → On low positive high before [] (cell db name t buffer)
      → (top : ℕ) × (positive' : 1 ≤ top) × (high' : top < u64_max) × On top positive' high'
          (before ++ files)
          []
          (cell db name t (replay_files codec files buffer))
  unfolding replay_files replay_file
  replay_files-IsOn low next positive high before [] buffer safe room ascends lows nexts h =
      (low, positive, high, rw (append-nil before) h)
  replay_files-IsOn low next positive high before ((seq, bytes) ∷ files) buffer safe room ascends
        lows nexts h =
      let positive' : 1 ≤ seq = omega (arith, lows.0) in
      let high' : seq < u64_max = omega (arith, nexts.0) in
      let raise =
        raised low seq positive high positive' high' before (cell db name t buffer) lows.0 h in
      rw (sym (append_assoc before ((seq, bytes) ∷ []) files)) (
        replay_files-IsOn seq next positive' high' (before ++ (seq, bytes) ∷ []) files
          (replay_bytes codec seq bytes buffer) (replay_bytes-IsSafe codec seq bytes buffer safe)
          room ascends.1 ascends.0 nexts.1
          (passed seq bytes positive' high' before _
            (replay_bytes-IsOn seq positive' high' before bytes buffer safe raise)))

module _ (codec : Codec) (flushed next : ℕ) (room : flushed < u64_max) where
  replay_contents-IsFrom :
      (seq : ℕ) (d : Decoded WalContents) (buffer : Buffer)
      → flushed < seq
      → seq < next
      → Everywhere (IsFrom flushed next) buffer.databases
      → Everywhere (IsFrom flushed next) (replay_contents codec seq d buffer).databases
  unfolding replay_contents
  replay_contents-IsFrom seq (ok contents) buffer low below h =
      apply_ops-IsFrom flushed seq next low below contents.ops buffer room h
  replay_contents-IsFrom seq (err e) buffer low below h = h

  replay_bytes-IsFrom :
      (seq : ℕ) (bytes : Option Bytes) (buffer : Buffer)
      → flushed < seq
      → seq < next
      → Everywhere (IsFrom flushed next) buffer.databases
      → Everywhere (IsFrom flushed next) (replay_bytes codec seq bytes buffer).databases
  unfolding replay_bytes
  replay_bytes-IsFrom seq none buffer low below h = h
  replay_bytes-IsFrom seq (some bytes) buffer low below h =
      replay_contents-IsFrom seq (deserialize_from_file codec bytes) buffer low below h

  pub replay_files-IsFrom :
      (files : Files) (buffer : Buffer)
      → Over flushed files
      → All (λ (f : ℕ × Option Bytes). f.0 < next) files
      → Everywhere (IsFrom flushed next) buffer.databases
      → Everywhere (IsFrom flushed next) (replay_files codec files buffer).databases
  unfolding replay_files replay_file
  replay_files-IsFrom [] buffer over under h = h
  replay_files-IsFrom ((seq, bytes) ∷ files) buffer over under h =
      replay_files-IsFrom files (replay_bytes codec seq bytes buffer) over.1 under.1
        (replay_bytes-IsFrom seq bytes buffer over.0 under.0 h)
