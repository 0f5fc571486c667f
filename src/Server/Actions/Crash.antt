-- ===== src/Server/Actions/Crash.antt =====
-- main.rs: a start-up, a run, a crash, and the next start-up.
use iedb_agent.Base.{
  ℕ, ◌+◌, ◌-◌, ◌^◌, ◌<◌, ◌≡◌, List, ◌∷◌, [], ◌++◌, Option, some, arith, All, ap, ◌∙◌,
}
use iedb_agent.Base.Int.{ℤ}
use iedb_agent.Base.Text.{Str, Bytes}
use iedb_agent.Config.{Config}
use iedb_agent.Buffer.Query.{Json}
use iedb_agent.Buffer.Chunk.{Row}
use iedb_agent.Wal.Serialize.{Codec, IsCodec}
use iedb_agent.Wal.Files.{Disk, SeqBelow, max_wal_seq}
use iedb_agent.Wal.Contents.{rows_in, rows-cell}
use iedb_agent.Wal.Manager.{load_last_snapshot, next_seq, replay}
use iedb_agent.Node.{Node, boot}
use iedb_agent.Node.Covered.Restart.{max_wal_seq-SeqBelow, next_seq-above}
use iedb_agent.Node.Covered.Booted.{boot-IsCovered}
use iedb_agent.Flush.Parquet.{Writer}
use iedb_agent.Flush.Snapshot.{Site}
use iedb_agent.Server.Actions.{Action, run_actions}
use iedb_agent.Server.Actions.Covered.{IsCleanAction, events_in, run_actions-HasRoom}
use iedb_agent.Buffer
use iedb_agent.Buffer.{get_table}
use iedb_agent.Wal.Cells.{cell}
use iedb_agent.Node.Log.{since_split, rows_in-replay}
use iedb_agent.Node.Covered.{IsCovered, HasRoom, cell-IsFrom}

module _ (codec : Codec) (read_meta : Bytes → Option ℕ) where
  covered-replay :
      (db name : Str) (t : ℤ) (node : Node)
      → node.wal.current_seq < 2 ^ 64
      → IsCovered codec read_meta node
      → (earlier : List Row) × (rows_in db name t (replay codec read_meta node.disk Buffer.new)
          ≡ earlier ++ rows_in db name t node.buffer)
  covered-replay db name t node room h =
      let flushed = load_last_snapshot read_meta node.disk in
      let c = cell db name t node.buffer in
      let (up, _) =
        cell-IsFrom flushed node.wal.current_seq db name t node.buffer (omega (arith, h.above))
          h.numbers in
      let (earlier, e) =
        since_split codec db name t flushed (c.min_wal_seq - 1) node.disk.wal_dir
          (omega (arith, up)) in
      (
        earlier,
        rows_in-replay codec db name t read_meta node.disk
            ∙ e
            ∙ ap (λ rows. earlier ++ rows) (h.rows db name t ∙ rows-cell db name t node.buffer),
      )

  -- A replay of the disk after a run gives each period of a table what it has in memory, behind what
  -- was there before.
  run_actions-replay :
      (laws : IsCodec codec) (J : Json) (config : Config) (w : Writer) (encode_meta : ℕ → Bytes)
      (actions : List Action) (site : Site) (db name : Str) (t : ℤ)
      → ((n : ℕ) → read_meta (encode_meta n) ≡ some n)
      → All (IsCleanAction read_meta) actions
      → HasRoom codec read_meta (events_in actions) site.node
      → let last = (run_actions codec J config w encode_meta actions site).node in
        (earlier : List Row) × (rows_in db name t (replay codec read_meta last.disk Buffer.new)
          ≡ earlier ++ rows_in db name t last.buffer)
  run_actions-replay laws J config w encode_meta actions site db name t reads clean (room, h) =
      let (left, covered) =
        run_actions-HasRoom codec laws J config read_meta w encode_meta reads 0 actions site clean
          (omega (arith, room), h) in
      covered-replay db name t (run_actions codec J config w encode_meta actions site).node
        (omega (arith, left)) covered

-- The site after a start-up, with nothing staged.
abbrev pub first_site : Node → Site
first_site node = record { node = node; staging = []; uploaded = [] }

-- A crash at any point of a run loses no row that is in memory. Take a codec and metadata that
-- read back as they were written, any disk whose highest WAL number is not the last `u64` and
-- whose snapshot number is below the first number to be written, and any run after the start-up
-- from it, of fewer requests and background flushes than numbers are left, and of snapshots, with
-- any events during an upload and any answer to it, where a flush and the application of its
-- operations are one step; let the file system do each write of a WAL file or refuse it and leave
-- nothing, and leave the metadata as they were, or unreadable, when it fails to write them. Then
-- the next start-up gives each period of each table all the rows that it had in memory, in their
-- order, behind rows that were there before.
pub boot-run_actions :
    (codec : Codec) (read_meta : Bytes → Option ℕ) (laws : IsCodec codec) (J : Json)
    (config : Config) (w : Writer) (encode_meta : ℕ → Bytes) (limit : ℕ) (disk : Disk)
    (actions : List Action) (db name : Str) (t : ℤ)
    → ((n : ℕ) → read_meta (encode_meta n) ≡ some n)
    → SeqBelow (2 ^ 64 - 1) (max_wal_seq disk.wal_dir)
    → load_last_snapshot read_meta disk < next_seq (max_wal_seq disk.wal_dir)
    → next_seq (max_wal_seq disk.wal_dir) + events_in actions < 2 ^ 64
    → All (IsCleanAction read_meta) actions
    → let first = boot codec read_meta limit disk in
      let last = (run_actions codec J config w encode_meta actions (first_site first)).node in
      (earlier : List Row) × (rows_in db name t (boot codec read_meta limit last.disk).buffer
        ≡ earlier ++ rows_in db name t last.buffer)
unfolding boot
boot-run_actions codec read_meta laws J config w encode_meta limit disk actions db name t reads
      bound above room clean =
    run_actions-replay codec read_meta laws J config w encode_meta actions
      (first_site (boot codec read_meta limit disk)) db name t reads clean
      (room, boot-IsCovered codec read_meta limit disk bound above (omega (arith, room)))

-- A run that ends with a row in memory leaves a disk that the next start-up can go on from. Take
-- a codec and metadata that read back as they were written, any disk whose highest WAL number is
-- not the last `u64` and whose snapshot number is below the first number to be written, and any
-- run after the start-up from it, of fewer requests and background flushes than numbers are left,
-- and of snapshots, where a flush and the application of its operations are one step, with WAL
-- writes done or refused without a trace, and metadata that are left as they were, or unreadable,
-- when their write fails. If a row is in memory at the end, the disk again has a highest number
-- that is not the last `u64` and a snapshot number below the first number to be written.
pub run_actions-restart :
    (codec : Codec) (read_meta : Bytes → Option ℕ) (laws : IsCodec codec) (J : Json)
    (config : Config) (w : Writer) (encode_meta : ℕ → Bytes) (limit : ℕ) (disk : Disk)
    (actions : List Action) (db name : Str) (t : ℤ) (row : Row) (rows : List Row)
    → ((n : ℕ) → read_meta (encode_meta n) ≡ some n)
    → SeqBelow (2 ^ 64 - 1) (max_wal_seq disk.wal_dir)
    → load_last_snapshot read_meta disk < next_seq (max_wal_seq disk.wal_dir)
    → next_seq (max_wal_seq disk.wal_dir) + events_in actions < 2 ^ 64
    → All (IsCleanAction read_meta) actions
    → rows_in db name t
        (run_actions codec J config w encode_meta actions
          (first_site (boot codec read_meta limit disk))).node.buffer
      ≡ row ∷ rows
    → let first = boot codec read_meta limit disk in
      let last = (run_actions codec J config w encode_meta actions (first_site first)).node in
      SeqBelow (2 ^ 64 - 1) (max_wal_seq last.disk.wal_dir)
      × (load_last_snapshot read_meta last.disk < next_seq (max_wal_seq last.disk.wal_dir))
unfolding boot
run_actions-restart codec read_meta laws J config w encode_meta limit disk actions db name t row
      rows reads bound above room clean has =
    let first = first_site (boot codec read_meta limit disk) in
    let last = (run_actions codec J config w encode_meta actions first).node in
    let (left, covered) =
      run_actions-HasRoom codec laws J config read_meta w encode_meta reads 0 actions first clean (
        omega (arith, room),
        boot-IsCovered codec read_meta limit disk bound above (omega (arith, room)),
      ) in
    (
      max_wal_seq-SeqBelow codec read_meta last (omega (arith, left)) covered,
      next_seq-above codec read_meta last (omega (arith, left)) covered db name t row rows has,
    )
