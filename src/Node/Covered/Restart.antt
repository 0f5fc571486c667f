-- ===== src/Node/Covered/Restart.antt =====
-- main.rs and wal/wal_core.rs: the number that the next start-up begins with.
use iedb_agent.Base.{
  ℕ, ◌-◌, ◌^◌, ◌≤◌, ◌<◌, ◌≡◌, sym, ◌∙◌, List, [], ◌∷◌, Option, none, some, arith, ltb, Bool-cases,
  inl, inr,
}
use iedb_agent.Base.Int.{ℤ}
use iedb_agent.Base.Text.{Str, Bytes}
use iedb_agent.Base.Dict.{Dict}
use iedb_agent.Buffer.Chunk.{Row}
use iedb_agent.Wal.Serialize.{Codec}
use iedb_agent.Wal.Files.{file_seq, max_wal_seq, max_wal_seq_from, max_with, SeqBelow, AllBelow}
use iedb_agent.Wal.Cells.{cell}
use iedb_agent.Wal.Contents.{rows_in, rows-cell}
use iedb_agent.Wal.Manager.{load_last_snapshot, next_seq}
use iedb_agent.Node.{Node}
use iedb_agent.Node.Log.{since_none}
use iedb_agent.Node.Recovered.{next_seq_bound}
use iedb_agent.Node.Covered.{IsCovered, cell-IsFrom}

max_with-SeqBelow :
    (n : ℕ) (a b : Option ℕ) → SeqBelow n a → SeqBelow n b → SeqBelow n (max_with a b)
max_with-SeqBelow n none none h k = tt
max_with-SeqBelow n none (some s) h k = k
max_with-SeqBelow n (some r) none h k = h
max_with-SeqBelow n (some r) (some s) h k = omega (arith, h, k)

max_wal_seq_from-SeqBelow :
    (n : ℕ) (m : Option ℕ) (wal_dir : Dict (Option Bytes))
    → SeqBelow n m
    → AllBelow n wal_dir
    → SeqBelow n (max_wal_seq_from m wal_dir)
unfolding max_wal_seq_from
max_wal_seq_from-SeqBelow n m [] h below = h
max_wal_seq_from-SeqBelow n m ((name, bytes) ∷ entries) h below =
    max_wal_seq_from-SeqBelow n (max_with m (file_seq name)) entries
      (max_with-SeqBelow n m (file_seq name) h below.0) below.1

SeqBelow-le : (n m : ℕ) (o : Option ℕ) → n ≤ m → SeqBelow n o → SeqBelow m o
SeqBelow-le n m none h k = tt
SeqBelow-le n m (some s) h k = omega (arith, h, k)

module _ (codec : Codec) (read_meta : Bytes → Option ℕ) (node : Node)
    (room : node.wal.current_seq < 2 ^ 64) (h : IsCovered codec read_meta node) where
  -- The highest number on disk is not the last `u64`.
  pub max_wal_seq-SeqBelow : SeqBelow (2 ^ 64 - 1) (max_wal_seq node.disk.wal_dir)
  unfolding max_wal_seq
  max_wal_seq-SeqBelow =
      SeqBelow-le node.wal.current_seq (2 ^ 64 - 1) (max_wal_seq_from none node.disk.wal_dir)
        (omega (arith, room))
        (max_wal_seq_from-SeqBelow node.wal.current_seq none node.disk.wal_dir tt h.below)

  -- If a row is in memory, the next start-up numbers its files above the snapshot.
  pub next_seq-above :
      (db name : Str) (t : ℤ) (row : Row) (rows : List Row)
      → rows_in db name t node.buffer ≡ row ∷ rows
      → load_last_snapshot read_meta node.disk < next_seq (max_wal_seq node.disk.wal_dir)
  next_seq-above db name t row rows has =
      let flushed = load_last_snapshot read_meta node.disk in
      let next = next_seq (max_wal_seq node.disk.wal_dir) in
      let c = cell db name t node.buffer in
      let (up, _) =
        cell-IsFrom flushed node.wal.current_seq db name t node.buffer
          (omega (arith, h.above, room)) h.numbers in
      elim (Bool-cases (ltb flushed next)) [
        | inl above ↦ ground (arith, above)
        | inr not_above ↦
            let low : next ≤ flushed = ground (arith, not_above) in
            let nothing : [] ≡ row ∷ rows =
              sym (
                since_none codec db name t next (c.min_wal_seq - 1) node.disk.wal_dir
                  (next_seq_bound node.disk.wal_dir max_wal_seq-SeqBelow) (omega (arith, low, up)))
              ∙ h.rows db name t
              ∙ rows-cell db name t node.buffer
              ∙ has in
            absurd (ground (arith, nothing))
      ]
