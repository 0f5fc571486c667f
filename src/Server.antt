-- ===== src/Server.antt =====
-- main.rs: the routes, and the tasks that share the node.
pub mod Run
pub mod Safe
pub mod Actions
pub mod Locks
use iedb_agent.Base.{ℕ, suc, ◌+◌, ◌^◌, ◌<◌, ◌≡◌, Bool, ◌&&◌, Option, none, some, if◌then◌else◌}
use iedb_agent.Base.Int.{ℤ}
use iedb_agent.Base.Text.{Str, Bytes, codes, str_eq}
use iedb_agent.Config.{Config}
use iedb_agent.Wal.Serialize.{Codec}
use iedb_agent.Wal.Manager.{WriteOutcome}
use iedb_agent.Node.{Node, flush_tick}
use iedb_agent.Node.Recovered.{IsClean}
use iedb_agent.Http.{Method, get, post, other, Request}
use iedb_agent.Http.Write.Handler.{Surroundings, handle}
use iedb_agent.Http.Write.Handler.Keeps.{node_of}

pub data Route : Type 0 where
  write_route query_route health_route not_found : Route

unfoldable pub route : Method → Str → Route
unfolding str_eq
route post path = if str_eq path (codes "/write") then write_route else not_found
route get path =
    if str_eq path (codes "/query")
    then query_route
    else if str_eq path (codes "/health")
    then health_route
    else not_found
route other path = not_found

-- One step of the node between snapshots: a write request or a round of the background flush, with
-- whatever the request and the surroundings are. Queries and health checks leave the node alone.
pub data Step (codec : Codec) (config : Config) (before : Node) (after : Node) : Type 0 where
  request :
      (env : Surroundings) (req : Request)
      → IsClean env.write_outcome
      → before.wal.current_seq + 1 < 2 ^ 64
      → after ≡ node_of (handle codec env config req before)
      → Step codec config before after
  tick :
      (now_ms : ℤ) (outcome : WriteOutcome)
      → IsClean outcome
      → before.wal.current_seq + 1 < 2 ^ 64
      → after ≡ flush_tick codec now_ms outcome before
      → Step codec config before after

pub data Reach (codec : Codec) (config : Config) (first : Node) : Node → Type 0 where
  here : Reach codec config first first
  next :
      {before after : Node}
      → Reach codec config first before
      → Step codec config before after
      → Reach codec config first after
