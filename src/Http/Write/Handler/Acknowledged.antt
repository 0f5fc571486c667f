-- ===== src/Http/Write/Handler/Acknowledged.antt =====
-- http/write.rs: what an accepted write does to the rows in memory.
use iedb_agent.Base.{ℕ, ◌≡◌, List, [], ◌++◌}
use iedb_agent.Base.Int.{ℤ}
use iedb_agent.Base.Text.{Str}
use iedb_agent.Wal.{WalOp}
use iedb_agent.Wal.Contents.{IsSafe, rows_in, logged}
use iedb_agent.Node.{Node}
use iedb_agent.Http.Write.Handler.{Outcome, respond, no_content}
use iedb_agent.Http.Write.Handler.Keeps.{node_of}

-- The answer is 204 with the number of rows, nothing is pending any more, and each period of each
-- table has the rows of the operations behind the rows that it had.
pub record IsTaken (rows : ℕ) (ops : List WalOp) (node : Node) (outcome : Outcome) : Type 0 where
  pub answered : outcome ≡ respond (no_content rows) (node_of outcome)
  pub drained : (node_of outcome).wal.pending_ops ≡ []
  pub safe : IsSafe (node_of outcome).buffer
  pub added :
      (db name : Str) (t : ℤ)
      → rows_in db name t (node_of outcome).buffer
        ≡ rows_in db name t node.buffer ++ logged db name t ops
