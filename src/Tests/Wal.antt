-- ===== src/Tests/Wal.antt =====
-- The WAL at concrete inputs.
use iedb_agent.Base.{ℕ, ◌≡◌, ◌↔◌, refl, List, [], ◌∷◌, ◌++◌, Option, none, some, arith, take}
use iedb_agent.Base.Int.{pos}
use iedb_agent.Base.Text.{Bytes, codes}
use iedb_agent.Base.Dict.{insert}
use iedb_agent.Buffer
use iedb_agent.Wal.{write}
use iedb_agent.Wal.Apply.{apply_ops}
use iedb_agent.Wal.Serialize.{
  ok, err, crc_mismatch, file_type_identifier, to_le_bytes, serialize_to_file,
  deserialize_from_file, deserialize-serialize, corruption_detected,
}
use iedb_agent.Wal.Serialize.Sound.{deserialize_sound}
use iedb_agent.Wal.Files.{
  wal_file_path, file_seq, files_above, cleanup, file_seq-wal_file_path, files_above-cleanup,
}
use iedb_agent.Wal.Manager.{new, buffer_op, flush, replay, written, done, load_last_snapshot}
use iedb_agent.Wal.Manager.Recovery.{replay-insert}
use iedb_agent.Wal.Manager.Reuse.{restart_hides_write}
use iedb_agent.Tests.Codec.{test_codec, test_codec-IsCodec, test_hash-nil}
use iedb_agent.Tests.Data.{batch, contents, empty_disk, cleaned_disk, read_meta}

deserialize-serialize_example :
    deserialize_from_file test_codec (serialize_to_file test_codec contents) ≡ ok contents
deserialize-serialize_example = deserialize-serialize test_codec contents test_codec-IsCodec

deserialize_sound_example : (deserialize_from_file test_codec (codes "short") ≡ ok contents) ↔ (
    (payload : Bytes) × (codes "short"
      ≡ file_type_identifier ++ (to_le_bytes (test_codec.hash payload) ++ payload))
    × (test_codec.deserialize payload ≡ ok contents))
deserialize_sound_example =
    deserialize_sound test_codec (codes "short") contents test_codec-IsCodec
      (omega arith, (omega arith, (omega arith, (omega arith, (omega arith, tt)))))

-- One of two files is below the bound.
abbrev two_files : List (List ℕ × Option Bytes)
two_files =
    (codes "00000000000000000002.wal", some []) ∷ (codes "00000000000000000005.wal", none) ∷ []

file_seq-wal_file_path_example : file_seq (wal_file_path 7) ≡ some 7
file_seq-wal_file_path_example = file_seq-wal_file_path 7 (omega arith)

files_above-cleanup_example : files_above 3 (cleanup 2 two_files) ≡ files_above 3 two_files
files_above-cleanup_example = files_above-cleanup 2 3 two_files (omega arith)

no_snapshot : load_last_snapshot read_meta empty_disk ≡ 0
unfolding load_last_snapshot
no_snapshot = refl

replay-insert_example :
    let bytes = some (serialize_to_file test_codec contents) in
    replay test_codec read_meta
      (record empty_disk { wal_dir = insert (wal_file_path 1) bytes [] })
      Buffer.new
    ≡ apply_ops 1 contents.ops (replay test_codec read_meta empty_disk Buffer.new)
replay-insert_example =
    replay-insert test_codec test_codec-IsCodec read_meta contents 1 empty_disk Buffer.new
      (omega arith) tt (rw no_snapshot (omega arith))

snapshot_three : load_last_snapshot read_meta cleaned_disk ≡ 3
unfolding load_last_snapshot
snapshot_three = refl

restart_hides_write_example :
    let wm = (buffer_op (write batch) (new cleaned_disk 10)).1 in
    ((flush test_codec (pos 1700) written wm cleaned_disk).0 ≡ done (1, write batch ∷ []))
    × (replay test_codec read_meta
          (flush test_codec (pos 1700) written wm cleaned_disk).2
          Buffer.new
        ≡ Buffer.new)
restart_hides_write_example =
    restart_hides_write test_codec read_meta 10 cleaned_disk (pos 1700) (write batch) Buffer.new
      refl (rw snapshot_three (omega arith)) (omega arith)

corruption_detected_example :
    let crc = test_codec.hash (test_codec.serialize contents) in
    deserialize_from_file test_codec (take 12 (serialize_to_file test_codec contents) ++ [])
    ≡ err (crc_mismatch crc (test_codec.hash []))
corruption_detected_example =
    corruption_detected test_codec contents [] test_codec-IsCodec test_hash-nil
