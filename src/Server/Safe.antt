-- ===== src/Server/Safe.antt =====
-- main.rs: queries in any run.
use iedb_agent.Base.{ℕ, ◌≡◌, sym, subst, List, Option, some}
use iedb_agent.Base.Int.{ℤ}
use iedb_agent.Base.Text.{Str, Bytes}
use iedb_agent.Config.{Config}
use iedb_agent.Buffer.Query.{Json, QueryRow, query}
use iedb_agent.Wal.Serialize.{Codec}
use iedb_agent.Wal.Files.{Disk}
use iedb_agent.Wal.Contents.{IsSafe, query_total}
use iedb_agent.Node.{Node, boot}
use iedb_agent.Node.Safe.{boot-IsSafe, flush_tick-IsSafe}
use iedb_agent.Http.Write.Handler.Safe.{handle-IsSafe}
use iedb_agent.Server.{Step, request, tick, Reach, here, next}

module _ (codec : Codec) (config : Config) where
  step-IsSafe :
      {before after : Node}
      → Step codec config before after
      → IsSafe before.buffer
      → IsSafe after.buffer
  step-IsSafe {before} (request env req clean room e) h =
      subst (λ (n : Node). IsSafe n.buffer) (sym e) (handle-IsSafe codec env before h config req)
  step-IsSafe {before} (tick now_ms outcome clean room e) h =
      subst (λ (n : Node). IsSafe n.buffer) (sym e)
        (flush_tick-IsSafe codec now_ms outcome before h)

  reach-IsSafe :
      {first last : Node} → Reach codec config first last → IsSafe first.buffer → IsSafe last.buffer
  reach-IsSafe here h = h
  reach-IsSafe (next r s) h = step-IsSafe s (reach-IsSafe r h)

-- After a start-up from any disk, whatever its files hold, and any run of requests and background
-- flushes, a query of any table, for any times and tag, does not panic.
pub reach-query_total :
    (codec : Codec) (config : Config) (read_meta : Bytes → Option ℕ) (limit : ℕ) (disk : Disk)
    (last : Node) (json : Json) (db name : Str) (start_ns end_ns : Option ℤ)
    (tag_key tag_value : Option Str)
    → Reach codec config (boot codec read_meta limit disk) last
    → (out : Option (List (QueryRow json))) × (query json last.buffer db name start_ns end_ns
          tag_key tag_value
        ≡ some out)
reach-query_total codec config read_meta limit disk last json db name start_ns end_ns tag_key
      tag_value r =
    query_total json last.buffer db name start_ns end_ns tag_key tag_value
      (reach-IsSafe codec config r (boot-IsSafe codec read_meta limit disk))
