-- ===== src/Tests/Server.antt =====
-- Runs of the whole program at concrete inputs.
use iedb_agent.Base.{◌+◌, ◌≡◌, refl, true, map, All, List, [], ◌∷◌, ◌++◌, none, some, arith}
use iedb_agent.Base.Int.{pos}
use iedb_agent.Base.Text.{codes}
use iedb_agent.Buffer
use iedb_agent.Buffer.Chunk.{Row}
use iedb_agent.Wal.Contents.{rows_in}
use iedb_agent.Wal.Files.{max_wal_seq, max_wal_seq_from, SeqBelow}
use iedb_agent.Wal.Manager.{written, refused, replay, load_last_snapshot}
use iedb_agent.Node.{Node, boot}
use iedb_agent.Node.Numbers.{rows_from, rows_in-replay_numbers}
use iedb_agent.Wal.Serialize.{serialize_to_file}
use iedb_agent.Wal.Files.{Disk, wal_file_path, file_seq-wal_file_path}
use iedb_agent.Base.{◌^◌, ◌-◌, ◌<◌}
use iedb_agent.Wal.Manager.{next_seq}
use iedb_agent.Http.Write.Handler.{handle}
use iedb_agent.Http.{Method, Request}
use iedb_agent.Flush.Upload.{answered}
use iedb_agent.Server.Actions.{
  Served, serve, Event, tick, Upload, Action, event, snapshot, run_actions,
}
use iedb_agent.Server.Actions
use iedb_agent.Server.Actions.Crash.{first_site, boot-run_actions, run_actions-restart}
use iedb_agent.Server.Actions.Safe.{IsAnswered, run_actions-IsAnswered}
use iedb_agent.Server.Locks.{finished, run_tasks, spawned}
use iedb_agent.Server.Locks.Order.{a_write, a_query, a_check, a_table, rounds_locks, IsFinished}
use iedb_agent.Base.{ℕ, length}
use iedb_agent.Server.Locks.Finish.{steps_left, run_tasks-IsFinished}
use iedb_agent.Server.Locks.Deadlock.{IsDeadlocked, fatal, flush_and_snapshot, fatal-run_tasks}
use iedb_agent.Tests.Codec.{test_codec, test_codec-IsCodec}
use iedb_agent.Tests.Data.{
  contents, first_row, writer, empty_disk, encode_meta, read_meta, surroundings, request, config,
  json,
}

-- A write, a round of the flush whose write the disk refuses, a snapshot during whose upload there is
-- another write and after which the metadata are torn, a write, and one more round.
abbrev upload : Upload
upload = record {
  first_events = [];
  events = Actions.request surroundings request ∷ [];
  answer = answered 200 [];
  meta_error = some (codes "no space", some (some []));
  staging_error = none;
  ts = codes "20240101_000000";
}

abbrev actions : List Action
actions =
    event (Actions.request surroundings request)
    ∷ event (tick (pos 1800) (refused (codes "disk full") none))
    ∷ snapshot (pos 9000000000) (upload ∷ [])
    ∷ event (Actions.request surroundings request)
    ∷ event (tick (pos 1900) written)
    ∷ []

abbrev booted : Node
booted = boot test_codec read_meta 10 empty_disk

abbrev last : Node
last = (run_actions test_codec json config writer encode_meta actions (first_site booted)).node

no_files : max_wal_seq [] ≡ none
unfolding max_wal_seq max_wal_seq_from
no_files = refl

no_meta : load_last_snapshot read_meta empty_disk ≡ 0
unfolding load_last_snapshot
no_meta = refl

boot-run_actions_example :
    (earlier : List Row) × (rows_in
        (codes "default")
        (codes "temp")
        (pos 1000000000)
        (boot test_codec read_meta 10 last.disk).buffer
      ≡ earlier ++ rows_in (codes "default") (codes "temp") (pos 1000000000) last.buffer)
boot-run_actions_example =
    boot-run_actions test_codec read_meta test_codec-IsCodec json config writer encode_meta 10
      empty_disk actions (codes "default") (codes "temp") (pos 1000000000) (λ n. refl)
      (rw no_files tt) (rw (no_files, no_meta) (omega arith)) (rw no_files (omega arith))
      (tt, (tt, (((tt, (tt, tt), refl), tt), (tt, (tt, tt)))))

abbrev question : Request
question = record {
  method = Method.get;
  path = codes "/query";
  content_length = none;
  query = some (codes "db=default&table=temp");
  body = some [];
}

run_actions-IsAnswered_example :
    IsAnswered (serve test_codec json config surroundings question last)
run_actions-IsAnswered_example =
    run_actions-IsAnswered test_codec json config writer encode_meta read_meta 10 empty_disk actions
      surroundings question

-- A file of one number, one that cannot be read, and one that a snapshot covers, in no order.
abbrev some_disk : Disk
some_disk = record {
  wal_dir =
      (wal_file_path 3, none)
      ∷ (wal_file_path 2, some (serialize_to_file test_codec contents))
      ∷ (wal_file_path 1, none)
      ∷ [];
  last_snapshot = some (encode_meta 1);
}

rows_in-replay_numbers_example :
    rows_in
      (codes "default")
      (codes "temp")
      (pos 1000000000)
      (replay test_codec read_meta some_disk Buffer.new)
    ≡ rows_from test_codec
        (codes "default")
        (codes "temp")
        (pos 1000000000)
        some_disk.wal_dir
        (load_last_snapshot read_meta some_disk + 1)
        2
unfolding load_last_snapshot
rows_in-replay_numbers_example =
    rows_in-replay_numbers test_codec (codes "default") (codes "temp") (pos 1000000000) read_meta
      some_disk 2
      (
        rw (file_seq-wal_file_path 3 (omega arith)) (omega arith),
        (
          rw (file_seq-wal_file_path 2 (omega arith)) (omega arith),
          (rw (file_seq-wal_file_path 1 (omega arith)) (omega arith), tt),
        ),
      )

run_tasks-IsFinished_example :
    let now = run_tasks (0 ∷ 1 ∷ 0 ∷ 1 ∷ []) (
      map
        (λ rs. spawned (rounds_locks rs))
        ((a_write true ∷ a_query ∷ []) ∷ (a_check true ∷ a_table (finished true) ∷ []) ∷ [])) in
    (more : List ℕ) × (length more ≡ steps_left now) × All IsFinished (run_tasks more now)
run_tasks-IsFinished_example =
    run_tasks-IsFinished
      ((a_write true ∷ a_query ∷ []) ∷ (a_check true ∷ a_table (finished true) ∷ []) ∷ [])
      (0 ∷ 1 ∷ 0 ∷ 1 ∷ [])

fatal-run_tasks_example : IsDeadlocked (
    run_tasks (fatal ++ 0 ∷ 1 ∷ 2 ∷ []) (
      flush_and_snapshot 1 []
        (rounds_locks (a_check true ∷ []))
        (spawned (rounds_locks (a_write true ∷ [])) ∷ [])))
fatal-run_tasks_example =
    fatal-run_tasks 1 [] (rounds_locks (a_check true ∷ []))
      (spawned (rounds_locks (a_write true ∷ [])) ∷ []) (0 ∷ 1 ∷ 2 ∷ []) refl refl

abbrev one_write : List Action
one_write = event (Actions.request surroundings request) ∷ []

abbrev after_write : Node
after_write =
    (run_actions test_codec json config writer encode_meta one_write (first_site booted)).node

one_row :
    rows_in (codes "default") (codes "temp") (pos 1000000000) after_write.buffer ≡ first_row ∷ []
unfolding run_actions handle boot
one_row = refl

run_actions-restart_example :
    SeqBelow (2 ^ 64 - 1) (max_wal_seq after_write.disk.wal_dir)
    × (load_last_snapshot read_meta after_write.disk
        < next_seq (max_wal_seq after_write.disk.wal_dir))
run_actions-restart_example =
    run_actions-restart test_codec read_meta test_codec-IsCodec json config writer encode_meta 10
      empty_disk one_write (codes "default") (codes "temp") (pos 1000000000) first_row []
      (λ n. refl) (rw no_files tt) (rw (no_files, no_meta) (omega arith))
      (rw no_files (omega arith)) (tt, tt) one_row
