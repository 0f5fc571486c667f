-- ===== src/Http/Write/Handler/Durable.antt =====
-- http/write.rs: the handler, the WAL buffer and the disk.
use iedb_agent.Base.{
  ℕ, zero, suc, ◌+◌, ◌-◌, ◌^◌, ◌<◌, ◌≤◌, ◌≡◌, ap, ◌∙◌, List, [], ◌∷◌, ◌++◌, map, Option, arith,
  length, leb, take, append_assoc, append-nil, if◌then◌else◌,
}
use iedb_agent.Base.Text.{Bytes}
use iedb_agent.Config.{Config}
use iedb_agent.Wal.{WriteBatch, write}
use iedb_agent.Wal.Serialize.{Codec, IsCodec}
use iedb_agent.Wal.Manager.{WalManager, WalError, buffer_full, done, failed, buffer_op}
use iedb_agent.Node.{Node}
use iedb_agent.Node.Recovered.{IsRecovered, IsClean, flush-IsRecovered}
use iedb_agent.Http.{Request}
use iedb_agent.Http.Write.Handler.Keeps.{node_of, handle-keeps}
use iedb_agent.Http.Write.Handler.{Surroundings, buffer_all, handle}

-- The manager with the operations of some batches behind those that were pending.
abbrev pub with_pending : List WriteBatch → WalManager → WalManager
with_pending batches wal = record wal {
  op_count = wal.op_count + length batches;
  pending_ops = wal.pending_ops ++ map write batches;
}

with_pending-nil : (wal : WalManager) → wal ≡ with_pending [] wal
with_pending-nil wal = ground (arith, append-nil wal.pending_ops)

with_pending-cons :
    (b : WriteBatch) (bs : List WriteBatch) (wal : WalManager)
    → with_pending bs (with_pending (b ∷ []) wal) ≡ with_pending (b ∷ bs) wal
with_pending-cons b bs wal =
    ground (arith, append_assoc wal.pending_ops (write b ∷ []) (map write bs))

buffer_op_room :
    (b : WriteBatch) (wal : WalManager)
    → wal.op_count < wal.op_limit
    → buffer_op (write b) wal ≡ (done tt, with_pending (b ∷ []) wal)
unfolding buffer_op
buffer_op_room b wal h = ground arith

buffer_op_full :
    (b : WriteBatch) (wal : WalManager)
    → wal.op_count ≡ wal.op_limit
    → buffer_op (write b) wal ≡ (failed (buffer_full wal.op_limit), wal)
unfolding buffer_op
buffer_op_full b wal h = ground arith

module _ (b : WriteBatch) (bs : List WriteBatch) (wal after : WalManager) where
  buffer_all-done :
      buffer_op (write b) wal ≡ (done tt, after) → buffer_all (b ∷ bs) wal ≡ buffer_all bs after
  unfolding buffer_all
  buffer_all-done e = ground arith

  buffer_all-failed :
      (error : WalError)
      → buffer_op (write b) wal ≡ (failed error, after)
      → buffer_all (b ∷ bs) wal ≡ (failed error, after)
  unfolding buffer_all
  buffer_all-failed error e = ground arith

pub buffer_all_room :
    (batches : List WriteBatch) (wal : WalManager)
    → wal.op_count + length batches ≤ wal.op_limit
    → buffer_all batches wal ≡ (done tt, with_pending batches wal)
unfolding buffer_all
buffer_all_room [] wal h = ap (λ w. (done tt, w)) (with_pending-nil wal)
buffer_all_room (b ∷ bs) wal h =
    buffer_all-done b bs wal (with_pending (b ∷ []) wal) (buffer_op_room b wal (omega arith))
    ∙ buffer_all_room bs (with_pending (b ∷ []) wal) (omega arith)
    ∙ ap (λ w. (done tt, w)) (with_pending-cons b bs wal)

buffer_all_full :
    (batches : List WriteBatch) (room : ℕ) (wal : WalManager)
    → wal.op_count + room ≡ wal.op_limit
    → room < length batches
    → buffer_all batches wal
      ≡ (failed (buffer_full wal.op_limit), with_pending (take room batches) wal)
unfolding buffer_all
buffer_all_full [] room wal e h = absurd (omega arith)
buffer_all_full (b ∷ bs) zero wal e h =
    buffer_all-failed b bs wal wal (buffer_full wal.op_limit) (buffer_op_full b wal (omega arith))
    ∙ (ap (λ w. (failed (buffer_full wal.op_limit), w)) (with_pending-nil wal))
buffer_all_full (b ∷ bs) (suc room) wal e h =
    buffer_all-done b bs wal (with_pending (b ∷ []) wal) (buffer_op_room b wal (omega arith))
    ∙ buffer_all_full bs room (with_pending (b ∷ []) wal) (omega arith) (omega arith)
    ∙ ap (λ w. (failed (buffer_full wal.op_limit), w)) (with_pending-cons b (take room bs) wal)

-- If the count of operations is within the limit: all batches are taken if there is room for them;
-- otherwise as many as there is room for are, and stay pending, and the call fails with the limit.
pub buffer_all_lem :
    (batches : List WriteBatch) (wal : WalManager)
    → wal.op_count ≤ wal.op_limit
    → buffer_all batches wal ≡ (
        if leb (length batches) (wal.op_limit - wal.op_count)
        then (done tt, with_pending batches wal)
        else (
          failed (buffer_full wal.op_limit),
          with_pending (take (wal.op_limit - wal.op_count) batches) wal,
        ))
unfolding buffer_all
buffer_all_lem batches wal h =
    ground (
      arith,
      buffer_all_room batches wal,
      buffer_all_full batches (wal.op_limit - wal.op_count) wal,
    )

module _ (codec : Codec) (laws : IsCodec codec) (read_meta : Bytes → Option ℕ) (env : Surroundings)
    (clean : IsClean env.write_outcome) (node : Node) (room : node.wal.current_seq + 1 < 2 ^ 64)
    (h : IsRecovered codec read_meta node) where
  with_wal :
      (wal : WalManager)
      → wal.current_seq ≡ node.wal.current_seq
      → IsRecovered codec read_meta (record node { wal = wal })
  with_wal wal e = record { replayed = h.replayed; below = rw e h.below; above = rw e h.above }

  -- A call of the write handler, with any request and however it ends, keeps the replay of the disk
  -- equal to the buffer in memory and the next WAL number above those in use, for a codec that
  -- round-trips, a number below the last `u64`, and a file system that does a write or refuses it
  -- and leaves nothing.
  pub handle-IsRecovered :
      (config : Config) (req : Request)
      → IsRecovered codec read_meta (node_of (handle codec env config req node))
  handle-IsRecovered = handle-keeps codec env node (IsRecovered codec read_meta) with_wal (λ wal e.
      flush-IsRecovered codec laws read_meta env.now_ms env.write_outcome
        (record node { wal = wal }) clean (rw e room) (with_wal wal e))
