-- ===== src/Http/Write/Handler/Refused.antt =====
-- http/write.rs: requests that are answered with an error.
use iedb_agent.Base.{ℕ, ◌<◌, ◌≡◌, ◌⊎◌, inl, inr, refl, List, [], ◌∷◌, none, some, arith}
use iedb_agent.Config.{Config}
use iedb_agent.Wal.{WalOp}
use iedb_agent.Wal.Serialize.{Codec}
use iedb_agent.Wal.Files.{Disk}
use iedb_agent.Wal.Manager.{
  WalManager, WriteOutcome, written, refused, Flushed, done, failed, flush, flush_pending,
  flush_ops,
}
use iedb_agent.Node.{Node}
use iedb_agent.Node.Recovered.{IsClean}
use iedb_agent.Http.{Request}
use iedb_agent.Http.Answers.{write_answer}
use iedb_agent.Http.Write.Handler.{
  Outcome, respond, hyper_error, panicked, Surroundings, finish, handle,
}
use iedb_agent.Http.Write.Handler.Keeps.{handle-ends}

-- The buffer and the disk are as they were.
abbrev pub IsUntouched : Node → Node → Type 0
IsUntouched before after = (after.buffer ≡ before.buffer) × (after.disk ≡ before.disk)

-- An end with a status below 400, or one that leaves the buffer and the disk.
abbrev pub IsHarmless : Node → Outcome → Type 0
IsHarmless before (respond r after) = ((write_answer r).status < 400) ⊎ IsUntouched before after
IsHarmless before (hyper_error after) = IsUntouched before after
IsHarmless before (panicked after) = IsUntouched before after

-- A flush that fails leaves the disk.
abbrev IsHarmlessFlush : Disk → Flushed → Type 0
IsHarmlessFlush before (done r, wal, disk) = Unit
IsHarmlessFlush before (failed e, wal, disk) = disk ≡ before

module _ (codec : Codec) (env : Surroundings) (clean : IsClean env.write_outcome)
    (node : Node) where
  flush_pending-IsHarmless :
      (wal : WalManager) (outcome : WriteOutcome) (ops : List WalOp)
      → IsClean outcome
      → IsHarmlessFlush node.disk (flush_pending codec env.now_ms outcome ops wal node.disk)
  unfolding flush_pending flush_ops
  flush_pending-IsHarmless wal outcome [] c = tt
  flush_pending-IsHarmless wal written (op ∷ ops) c = tt
  flush_pending-IsHarmless wal (refused e none) (op ∷ ops) c = refl
  flush_pending-IsHarmless wal (refused e (some bytes)) (op ∷ ops) c = absurd c

  finish-IsHarmless :
      (rows : ℕ) (f : Flushed) → IsHarmlessFlush node.disk f → IsHarmless node (finish rows f node)
  unfolding finish write_answer
  finish-IsHarmless rows (done (seq, ops), wal, disk) h = inl (omega arith)
  finish-IsHarmless rows (failed e, wal, disk) h = inr (refl, h)

  -- A write request that is answered with a status of 400 or more, or not at all, leaves the buffer
  -- and the disk as they were, if the file system refuses a write without leaving anything.
  pub handle-IsHarmless :
      (config : Config) (req : Request) → IsHarmless node (handle codec env config req node)
  unfolding flush
  handle-IsHarmless =
      handle-ends codec env node (IsHarmless node) (refl, refl) (refl, refl)
        (λ r wal e. inr (refl, refl))
        (λ rows wal e.
          finish-IsHarmless rows (flush codec env.now_ms env.write_outcome wal node.disk)
            (flush_pending-IsHarmless wal env.write_outcome wal.pending_ops clean))
