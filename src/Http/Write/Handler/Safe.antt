-- ===== src/Http/Write/Handler/Safe.antt =====
-- http/write.rs: the handler and the invariant that queries rest on.
use iedb_agent.Config.{Config}
use iedb_agent.Wal.Serialize.{Codec}
use iedb_agent.Wal.Manager.{flush}
use iedb_agent.Wal.Contents.{IsSafe}
use iedb_agent.Node.{Node}
use iedb_agent.Node.Safe.{apply_flushed-IsSafe}
use iedb_agent.Http.{Request}
use iedb_agent.Http.Write.Handler.{Surroundings, handle}
use iedb_agent.Http.Write.Handler.Keeps.{node_of, handle-keeps}

pub handle-IsSafe :
    (codec : Codec) (env : Surroundings) (node : Node)
    → IsSafe node.buffer
    → (config : Config) (req : Request) → IsSafe (node_of (handle codec env config req node)).buffer
handle-IsSafe codec env node h =
    handle-keeps codec env node (λ n. IsSafe n.buffer) (λ wal e. h)
      (λ wal e.
        apply_flushed-IsSafe codec (flush codec env.now_ms env.write_outcome wal node.disk)
          node.buffer h)
