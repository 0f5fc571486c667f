-- ===== src/Node/Covered/Booted.antt =====
-- wal/wal_core.rs and main.rs: a start-up, and the files that cover the chunks it makes.
use iedb_agent.Base.{
  ℕ, ◌-◌, ◌^◌, ◌≤◌, ◌<◌, ◌≡◌, refl, sym, ◌∙◌, [], ◌∷◌, append-nil, Option, arith, All,
}
use iedb_agent.Base.Int.{ℤ, u64_max}
use iedb_agent.Base.Text.{Str, Bytes}
use iedb_agent.Buffer
use iedb_agent.Buffer.{Buffer, get_table}
use iedb_agent.Buffer.Chunk.{Chunk}
use iedb_agent.Buffer.Everywhere.{Everywhere}
use iedb_agent.Wal.Serialize.{Codec}
use iedb_agent.Wal.Files.{Disk, AllBelow, SeqBelow, files_above, sort_by_seq, max_wal_seq}
use iedb_agent.Wal.Files.Sorted.{
  Files, Over, sort_by_seq-All, sort_by_seq-IsAscending, files_above-Over, files_above-Under,
}
use iedb_agent.Wal.Cells.{cell}
use iedb_agent.Wal.Contents.{new-IsSafe}
use iedb_agent.Wal.Manager.{replay, load_last_snapshot, next_seq}
use iedb_agent.Node.{boot}
use iedb_agent.Node.Log.{since, since_none}
use iedb_agent.Node.Recovered.{next_seq_bound}
use iedb_agent.Node.Safe.{boot-IsSafe}
use iedb_agent.Node.Covered.{IsFrom, IsCovered, cell-IsFrom, numbered, unused}
use iedb_agent.Node.Covered.Replayed.{On, rows_above-sorted, replay_files-IsOn, replay_files-IsFrom}

module _ (codec : Codec) (read_meta : Bytes → Option ℕ) (disk : Disk) (next : ℕ)
    (below : AllBelow next disk.wal_dir) (above : load_last_snapshot read_meta disk < next)
    (bound : next ≤ u64_max) where
  replayed-IsFrom :
      Everywhere
        (IsFrom (load_last_snapshot read_meta disk) next)
        (replay codec read_meta disk Buffer.new).databases
  unfolding replay
  replayed-IsFrom =
      let flushed = load_last_snapshot read_meta disk in
      replay_files-IsFrom codec flushed next (omega (arith, above))
        (sort_by_seq (files_above flushed disk.wal_dir)) Buffer.new
        (sort_by_seq-All (λ (f : ℕ × Option Bytes). flushed < f.0) _
          (files_above-Over flushed disk.wal_dir))
        (sort_by_seq-All (λ (f : ℕ × Option Bytes). f.0 < next) _
          (files_above-Under next flushed disk.wal_dir below))
        tt

  since-replayed :
      (db name : Str) (t : ℤ)
      → let c = cell db name t (replay codec read_meta disk Buffer.new) in
        since codec db name t (c.min_wal_seq - 1) disk.wal_dir ≡ c.rows
  unfolding replay get_table
  since-replayed db name t =
      let flushed = load_last_snapshot read_meta disk in
      let files = sort_by_seq (files_above flushed disk.wal_dir) in
      let c = cell db name t (replay codec read_meta disk Buffer.new) in
      let (top, positive, high, on) =
        replay_files-IsOn codec db name t 1 next (omega arith) (omega arith) [] files Buffer.new
          new-IsSafe bound (sort_by_seq-IsAscending (files_above flushed disk.wal_dir))
          (positives files (
            sort_by_seq-All (λ (f : ℕ × Option Bytes). flushed < f.0) _
              (files_above-Over flushed disk.wal_dir)))
          (sort_by_seq-All (λ (f : ℕ × Option Bytes). f.0 < next) _
            (files_above-Under next flushed disk.wal_dir below))
          (unused refl refl refl refl) in
      at_end c on (
        cell-IsFrom flushed next db name t (replay codec read_meta disk Buffer.new)
          (omega (arith, above)) replayed-IsFrom)
    where
      positives :
          (fs : Files)
          → Over (load_last_snapshot read_meta disk) fs
          → All (λ (f : ℕ × Option Bytes). 1 ≤ f.0) fs
      positives [] o = tt
      positives (f ∷ fs) o = (omega (arith, o.0), positives fs o.1)

      at_end :
          {top : ℕ} {positive : 1 ≤ top} {high : top < u64_max} (c : Chunk)
          → On codec db name t top positive high
              (sort_by_seq (files_above (load_last_snapshot read_meta disk) disk.wal_dir))
              []
              c
          → IsFrom (load_last_snapshot read_meta disk) next c
          → since codec db name t (c.min_wal_seq - 1) disk.wal_dir ≡ c.rows
      at_end c (numbered up e) from =
          sym (
            rows_above-sorted codec db name t (load_last_snapshot read_meta disk)
              (c.min_wal_seq - 1) disk.wal_dir (omega (arith, from.0)))
          ∙ sym (append-nil _)
          ∙ e
      at_end c (unused top nothing new empty) from =
          since_none codec db name t next (c.min_wal_seq - 1) disk.wal_dir below
            (omega (arith, top))
          ∙ sym empty

-- After a start-up the WAL files cover the chunks, if the highest number on disk is not the last
-- `u64` and the snapshot's number is below the first one to be written.
pub boot-IsCovered :
    (codec : Codec) (read_meta : Bytes → Option ℕ) (max_write_buffer_ops : ℕ) (disk : Disk)
    → SeqBelow (2 ^ 64 - 1) (max_wal_seq disk.wal_dir)
    → load_last_snapshot read_meta disk < next_seq (max_wal_seq disk.wal_dir)
    → next_seq (max_wal_seq disk.wal_dir) ≤ u64_max
    → IsCovered codec read_meta (boot codec read_meta max_write_buffer_ops disk)
boot-IsCovered codec read_meta limit disk bound above top =
    let next = next_seq (max_wal_seq disk.wal_dir) in
    let below = next_seq_bound disk.wal_dir bound in
    record {
      safe = boot-IsSafe codec read_meta limit disk;
      below = unfold boot in below;
      above = unfold boot in above;
      numbers = unfold boot in replayed-IsFrom codec read_meta disk next below above top;
      rows = unfold boot in since-replayed codec read_meta disk next below above top;
    }
