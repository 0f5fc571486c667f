-- ===== src/Node/Covered/Flushed.antt =====
-- wal/wal_core.rs and main.rs: a flush, with its operations in the buffer, and the files that cover
-- the chunks.
use iedb_agent.Base.{
  ℕ, suc, ◌+◌, ◌-◌, ◌%◌, ◌^◌, ◌≤◌, ◌<◌, ◌≡◌, refl, sym, ◌∙◌, List, [], ◌∷◌, append-nil, Option,
  none, some, arith, length, inl, inr,
}
use iedb_agent.Base.Int.{ℤ, u64_max}
use iedb_agent.Base.Text.{Str, Bytes}
use iedb_agent.Base.Dict.{insert}
use iedb_agent.Buffer.{Buffer}
use iedb_agent.Buffer.Chunk
use iedb_agent.Buffer.Chunk.{Row, Chunk}
use iedb_agent.Buffer.Everywhere.{Everywhere, Everywhere-map}
use iedb_agent.Wal.{WalOp, write, noop, WalContents}
use iedb_agent.Wal.Apply.{apply_write_batch, apply_op, apply_ops}
use iedb_agent.Wal.Serialize.{Codec, IsCodec, serialize_to_file}
use iedb_agent.Wal.Files.{AllBelow, wal_file_path}
use iedb_agent.Wal.Rows.{insert_rows-least}
use iedb_agent.Wal.Cells.{cell, filled}
use iedb_agent.Wal.Contents.{logged, apply_ops-IsSafe}
use iedb_agent.Wal.Everywhere.{apply_write_batch-Everywhere}
use iedb_agent.Wal.Manager.{
  WriteOutcome, written, refused, flush, flush_pending, flush_ops, load_last_snapshot,
}
use iedb_agent.Node.{Node, apply_flushed}
use iedb_agent.Node.Recovered.{IsClean, AllBelow-insert}
use iedb_agent.Node.Log.{since, since_none, since-insert}
use iedb_agent.Node.Covered.{
  IsFrom, IsCovered, HasRoom, cell-IsFrom, IsOn, numbered, unused, apply_ops-IsOn,
}

module _ (flushed seq next : ℕ) (low : flushed < seq) (below : seq < next) where
  filled-IsFrom :
      (keys : List Str) (rows : List Row) (c : Chunk)
      → IsFrom flushed next c
      → IsFrom flushed next (filled keys seq rows c)
  filled-IsFrom keys [] c h = rw (insert_rows-least keys seq (length c.rows) 0 [] c) h
  filled-IsFrom keys (row ∷ rows) c h =
      rw (insert_rows-least keys seq (length c.rows) 0 (row ∷ rows) c) (ground (arith, h))

  pub apply_ops-IsFrom :
      (ops : List WalOp) (buffer : Buffer)
      → flushed < u64_max
      → Everywhere (IsFrom flushed next) buffer.databases
      → Everywhere (IsFrom flushed next) (apply_ops seq ops buffer).databases
  unfolding apply_ops apply_op
  apply_ops-IsFrom [] buffer room h = h
  apply_ops-IsFrom (noop ∷ ops) buffer room h = apply_ops-IsFrom ops buffer room h
  apply_ops-IsFrom (write batch ∷ ops) buffer room h =
      apply_ops-IsFrom ops (apply_write_batch buffer batch seq) room (
        apply_write_batch-Everywhere (IsFrom flushed next) batch seq
          (λ keys. filled-IsFrom keys batch.rows (Chunk.new batch.chunk_time) (room, inr refl))
          (λ keys c k. filled-IsFrom keys batch.rows c k) buffer h)

module _ (codec : Codec) (laws : IsCodec codec) (db name : Str) (t : ℤ) (contents : WalContents)
    (seq : ℕ) (wal_dir : _) (below : AllBelow seq wal_dir) (positive : 1 ≤ seq)
    (high : seq < u64_max) where
  -- Before the first operation, and after the last.
  start-IsOn :
      (flushed : ℕ) (c : Chunk)
      → IsFrom flushed seq c
      → since codec db name t (c.min_wal_seq - 1) wal_dir ≡ c.rows
      → IsOn db name t seq (λ b. since codec db name t b wal_dir) positive high [] c
  start-IsOn flushed c (up, inl low) e = numbered (omega arith) (append-nil _ ∙ e)
  start-IsOn flushed c (up, inr top) e =
      unused top refl (since_none codec db name t seq (seq - 1) wal_dir below (omega arith))
        (sym e ∙ since_none codec db name t seq (c.min_wal_seq - 1) wal_dir below (omega arith))

  rows_of-IsOn :
      (c : Chunk)
      → IsOn db name t seq
          (λ b. since codec db name t b wal_dir)
          positive
          high
          (logged db name t contents.ops)
          c
      → since codec db name t
          (c.min_wal_seq - 1)
          (insert (wal_file_path seq) (some (serialize_to_file codec contents)) wal_dir)
        ≡ c.rows
  rows_of-IsOn c (numbered low e) =
      since-insert codec db name t laws contents seq (c.min_wal_seq - 1) wal_dir (omega arith) below
        (omega arith)
      ∙ e
  rows_of-IsOn c (unused top nothing new empty) =
      since_none codec db name t (seq + 1) (c.min_wal_seq - 1) _
        (AllBelow-insert seq _ wal_dir (omega arith) below) (omega arith)
      ∙ sym empty

module _ (codec : Codec) (laws : IsCodec codec) (read_meta : Bytes → Option ℕ) where
  flush_ops-IsCovered :
      (now_ms : ℤ) (ops : List WalOp) (node : Node)
      → node.wal.current_seq + 1 < 2 ^ 64
      → IsCovered codec read_meta node
      → IsCovered codec read_meta
          (apply_flushed (flush_ops codec now_ms written ops node.wal node.disk) node.buffer)
  unfolding flush_ops load_last_snapshot
  flush_ops-IsCovered now_ms ops node room h =
      let seq = node.wal.current_seq in
      let flushed = load_last_snapshot read_meta node.disk in
      let contents : WalContents = record {
        wal_file_number = seq;
        ops = ops;
        persist_timestamp_ms = now_ms;
      } in
      let next : (seq + 1) % 2 ^ 64 ≡ seq + 1 = omega arith in
      let positive : 1 ≤ seq = omega (arith, h.above) in
      let high : seq < u64_max = omega arith in
      record {
        safe = apply_ops-IsSafe seq ops node.buffer h.safe;
        below = rw next (AllBelow-insert seq _ node.disk.wal_dir (omega arith) h.below);
        above = rw next (omega (arith, h.above));
        numbers = rw next (
            apply_ops-IsFrom flushed seq (seq + 1) h.above (omega arith) ops node.buffer
              (omega (arith, h.above))
              (Everywhere-map (IsFrom flushed seq) (IsFrom flushed (seq + 1))
                (λ c k. ground (arith, k)) node.buffer.databases h.numbers));
        rows = λ db name t.
            rows_of-IsOn codec laws db name t contents seq node.disk.wal_dir h.below positive high
              (cell db name t (apply_ops seq ops node.buffer))
              (apply_ops-IsOn db name t seq (λ b. since codec db name t b node.disk.wal_dir)
                positive high [] ops node.buffer h.safe
                (start-IsOn codec laws db name t contents seq node.disk.wal_dir h.below positive
                  high flushed (cell db name t node.buffer)
                  (cell-IsFrom flushed seq db name t node.buffer (omega (arith, h.above)) h.numbers)
                  (h.rows db name t)));
      }

  pub flush-HasRoom :
      (k : ℕ) (now_ms : ℤ) (outcome : WriteOutcome) (node : Node)
      → IsClean outcome
      → HasRoom codec read_meta (suc k) node
      → HasRoom codec read_meta k
          (apply_flushed (flush codec now_ms outcome node.wal node.disk) node.buffer)
  unfolding flush apply_ops
  flush-HasRoom k now_ms outcome node clean (room, h) = go node.wal.pending_ops outcome clean
    where
      go :
          (ops : List WalOp) (o : WriteOutcome)
          → IsClean o
          → HasRoom codec read_meta k
              (apply_flushed (flush_pending codec now_ms o ops node.wal node.disk) node.buffer)
      go [] o clean = (
        omega (arith, room),
        record {
          safe = h.safe;
          below = h.below;
          above = h.above;
          numbers = h.numbers;
          rows = h.rows;
        },
      )
      go (op ∷ ops) written clean = (
        unfold flush_ops in omega (arith, room),
        flush_ops-IsCovered now_ms (op ∷ ops) node (omega (arith, room)) h,
      )
      go (op ∷ ops) (refused e none) clean = (
        omega (arith, room),
        record {
          safe = h.safe;
          below = h.below;
          above = h.above;
          numbers = h.numbers;
          rows = h.rows;
        },
      )
      go (op ∷ ops) (refused e (some bytes)) clean = absurd clean
