-- ===== src/Node/Recovered.antt =====
-- main.rs and wal/wal_core.rs: the buffer in memory and what a replay of the disk gives.
use iedb_agent.Base.{
  ℕ, ◌+◌, ◌-◌, ◌%◌, ◌^◌, ◌<◌, ◌≤◌, ◌≡◌, refl, ap, ◌∙◌, List, [], ◌∷◌, ◌++◌, Option, none, some,
  arith, Option-cases, inl, inr,
}
use iedb_agent.Base.Int.{ℤ}
use iedb_agent.Base.Text.{Bytes}
use iedb_agent.Base.Dict.{Dict, insert}
use iedb_agent.Buffer
use iedb_agent.Buffer.{Buffer}
use iedb_agent.Wal.{WalOp, WalContents}
use iedb_agent.Wal.Apply.{apply_ops}
use iedb_agent.Wal.Serialize.{Codec, IsCodec, serialize_to_file}
use iedb_agent.Wal.Files.{
  Disk, wal_file_path, file_seq, file_seq-wal_file_path, AllBelow, max_wal_seq, max_wal_seq_from,
  max_with, SeqBelow,
}
use iedb_agent.Wal.Manager
use iedb_agent.Wal.Manager.{
  WalManager, WalResult, WriteOutcome, written, refused, Flushed, done, failed, flush, replay,
  load_last_snapshot, next_seq,
}
use iedb_agent.Wal.Manager.Recovery.{replay-insert, insert_fresh}
use iedb_agent.Node.{Node, apply_flushed, boot}

AllBelow-suc :
    (n m : ℕ) (wal_dir : Dict (Option Bytes)) → n ≤ m → AllBelow n wal_dir → AllBelow m wal_dir
AllBelow-suc n m [] h b = tt
AllBelow-suc n m ((name, bytes) ∷ entries) h b =
    (below (file_seq name) b.0, AllBelow-suc n m entries h b.1)
  where
    below : (o : Option ℕ) → SeqBelow n o → SeqBelow m o
    below none s = tt
    below (some seq) s = omega arith

AllBelow-append :
    (n seq : ℕ) (bytes : Option Bytes) (wal_dir : Dict (Option Bytes))
    → seq < 2 ^ 64
    → seq < n
    → AllBelow n wal_dir
    → AllBelow n (wal_dir ++ (wal_file_path seq, bytes) ∷ [])
AllBelow-append n seq bytes [] bound h b = (rw (file_seq-wal_file_path seq bound) h, tt)
AllBelow-append n seq bytes ((name, c) ∷ entries) bound h b =
    (b.0, AllBelow-append n seq bytes entries bound h b.1)

-- With the file of a number added, all files are below the next.
pub AllBelow-insert :
    (seq : ℕ) (bytes : Option Bytes) (wal_dir : Dict (Option Bytes))
    → seq < 2 ^ 64
    → AllBelow seq wal_dir
    → AllBelow (seq + 1) (insert (wal_file_path seq) bytes wal_dir)
AllBelow-insert seq bytes wal_dir h below = rw (insert_fresh seq bytes wal_dir h below) (
    AllBelow-append (seq + 1) seq bytes wal_dir h (omega arith)
      (AllBelow-suc seq (seq + 1) wal_dir (omega arith) below))

-- The file system refuses a write and leaves nothing, or does it.
abbrev pub IsClean : WriteOutcome → Type 0
IsClean written = Unit
IsClean (refused e none) = Unit
IsClean (refused e (some bytes)) = ⊥

module _ (codec : Codec) (read_meta : Bytes → Option ℕ) where
  pub record IsRecovered (node : Node) : Type 0 where
    pub replayed : replay codec read_meta node.disk Buffer.new ≡ node.buffer
    pub below : AllBelow node.wal.current_seq node.disk.wal_dir
    pub above : load_last_snapshot read_meta node.disk < node.wal.current_seq

module _ (codec : Codec) (laws : IsCodec codec) (read_meta : Bytes → Option ℕ) where
  flush_written :
      (now_ms : ℤ) (ops : List WalOp) (node : Node)
      → node.wal.current_seq + 1 < 2 ^ 64
      → IsRecovered codec read_meta node
      → let seq = node.wal.current_seq in
        let contents : WalContents = record {
          wal_file_number = seq;
          ops = ops;
          persist_timestamp_ms = now_ms;
        } in
        let bytes = some (serialize_to_file codec contents) in
        IsRecovered codec read_meta (record {
          buffer = apply_ops seq ops node.buffer;
          wal = record node.wal {
            pending_ops = [];
            op_count = 0;
            current_seq = (seq + 1) % 2 ^ 64;
          };
          disk = record node.disk { wal_dir = insert (wal_file_path seq) bytes node.disk.wal_dir };
        })
  flush_written now_ms ops node room h =
      let seq = node.wal.current_seq in
      let contents : WalContents = record {
        wal_file_number = seq;
        ops = ops;
        persist_timestamp_ms = now_ms;
      } in
      let bytes = some (serialize_to_file codec contents) in
      let unwrapped : (seq + 1) % 2 ^ 64 ≡ seq + 1 = omega arith in
      record {
        replayed =
            replay-insert codec laws read_meta contents seq node.disk Buffer.new (omega arith)
              h.below h.above
            ∙ ap (apply_ops seq ops) h.replayed;
        below = rw unwrapped (AllBelow-insert seq bytes node.disk.wal_dir (omega arith) h.below);
        above = rw unwrapped (unfold load_last_snapshot in omega (arith, h.above));
      }

  -- For a codec that round-trips and a number below the last `u64`, a flush and the application of
  -- its operations keep the replay of the disk equal to the buffer and the next number above those
  -- in use, whether the file system takes the file or refuses it and leaves nothing.
  pub flush-IsRecovered :
      (now_ms : ℤ) (outcome : WriteOutcome) (node : Node)
      → IsClean outcome
      → node.wal.current_seq + 1 < 2 ^ 64
      → IsRecovered codec read_meta node
      → IsRecovered codec read_meta
          (apply_flushed (flush codec now_ms outcome node.wal node.disk) node.buffer)
  unfolding flush apply_ops
  flush-IsRecovered now_ms outcome node clean room h = go node.wal.pending_ops outcome clean
    where
      go :
          (ops : List WalOp) (o : WriteOutcome)
          → IsClean o
          → IsRecovered codec read_meta (
              apply_flushed
                (Manager.flush_pending codec now_ms o ops node.wal node.disk)
                node.buffer)
      go [] o clean = record { replayed = h.replayed; below = h.below; above = h.above }
      go (op ∷ ops) written clean = flush_written now_ms (op ∷ ops) node room h
      go (op ∷ ops) (refused e none) clean = record {
        replayed = h.replayed;
        below = h.below;
        above = h.above;
      }
      go (op ∷ ops) (refused e (some bytes)) clean = absurd clean

-- The numbers in a directory are below the one that a new manager starts from.
max_wal_seq_from_bound :
    (n : ℕ) (m : Option ℕ) (wal_dir : Dict (Option Bytes))
    → SeqBelow n (max_wal_seq_from m wal_dir)
    → SeqBelow n m × AllBelow n wal_dir
unfolding max_wal_seq_from
max_wal_seq_from_bound n m [] h = (h, tt)
max_wal_seq_from_bound n m ((name, bytes) ∷ entries) h =
    let rest = max_wal_seq_from_bound n (max_with m (file_seq name)) entries h in
    let here = split m (file_seq name) rest.0 in (here.0, (here.1, rest.1))
  where
    split : (a b : Option ℕ) → SeqBelow n (max_with a b) → SeqBelow n a × SeqBelow n b
    split none none h = (tt, tt)
    split none (some s) h = (tt, h)
    split (some r) none h = (h, tt)
    split (some r) (some s) h = (omega arith, omega arith)

AllBelow-none : (wal_dir : Dict (Option Bytes)) → max_wal_seq wal_dir ≡ none → AllBelow 1 wal_dir
unfolding max_wal_seq
AllBelow-none wal_dir e = (max_wal_seq_from_bound 1 none wal_dir (rw e tt)).1

-- The number after the highest in the directory, unless that is the last `u64`.
pub next_seq_bound :
    (wal_dir : Dict (Option Bytes))
    → SeqBelow (2 ^ 64 - 1) (max_wal_seq wal_dir)
    → AllBelow (next_seq (max_wal_seq wal_dir)) wal_dir
next_seq_bound wal_dir h = elim (Option-cases (max_wal_seq wal_dir)) [
  | inl e ↦ rw e (AllBelow-none wal_dir e)
  | inr (s, e) ↦
      let below : s < 2 ^ 64 - 1 = rw e at h in
      let unwrapped : (s + 1) % 2 ^ 64 ≡ s + 1 = omega arith in
      let last : s < s + 1 = omega arith in
      rw (e, unwrapped)
        (unfold max_wal_seq in (max_wal_seq_from_bound (s + 1) none wal_dir (rw e last)).1)
]

-- After a start-up the replay of the disk is the buffer and the next number is above those in use,
-- if the highest number on disk is not the last `u64` and the snapshot's number is below the first
-- one to be written.
pub boot-IsRecovered :
    (codec : Codec) (read_meta : Bytes → Option ℕ) (max_write_buffer_ops : ℕ) (disk : Disk)
    → SeqBelow (2 ^ 64 - 1) (max_wal_seq disk.wal_dir)
    → load_last_snapshot read_meta disk < next_seq (max_wal_seq disk.wal_dir)
    → IsRecovered codec read_meta (boot codec read_meta max_write_buffer_ops disk)
unfolding boot
boot-IsRecovered codec read_meta limit disk bound h = record {
  replayed = refl;
  below = next_seq_bound disk.wal_dir bound;
  above = h;
}
