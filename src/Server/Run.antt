-- ===== src/Server/Run.antt =====
-- main.rs: an invariant of the runs of requests and flushes, one after the other.
use iedb_agent.Base.{sym, subst}
use iedb_agent.Base.Text.{Bytes}
use iedb_agent.Base.{Option, ℕ}
use iedb_agent.Config.{Config}
use iedb_agent.Wal.Serialize.{Codec, IsCodec}
use iedb_agent.Node.{Node, flush_tick}
use iedb_agent.Node.Recovered.{IsRecovered, flush-IsRecovered}
use iedb_agent.Http.Write.Handler.Durable.{handle-IsRecovered}
use iedb_agent.Server.{Step, request, tick, Reach, here, next}

module _ (codec : Codec) (laws : IsCodec codec) (read_meta : Bytes → Option ℕ)
    (config : Config) where
  step-IsRecovered :
      {before after : Node}
      → Step codec config before after
      → IsRecovered codec read_meta before
      → IsRecovered codec read_meta after
  step-IsRecovered {before} (request env req clean room e) h =
      subst (IsRecovered codec read_meta) (sym e)
        (handle-IsRecovered codec laws read_meta env clean before room h config req)
  step-IsRecovered {before} (tick now_ms outcome clean room e) h =
      subst (IsRecovered codec read_meta) (sym e) (
        unfold flush_tick in
        flush-IsRecovered codec laws read_meta now_ms outcome before clean room h)

  -- For a codec that round-trips, a run of requests and background flushes one after the other, in
  -- any order, where a flush and the application of its operations are one step, between whose two
  -- parts no other task comes, and each step is below the last `u64` and has writes that the file
  -- system does or refuses cleanly, keeps this: a replay of the disk gives exactly the buffer in
  -- memory, and the next WAL number is above those on disk and above the snapshot's.
  pub reach-IsRecovered :
      {first last : Node}
      → Reach codec config first last
      → IsRecovered codec read_meta first
      → IsRecovered codec read_meta last
  reach-IsRecovered here h = h
  reach-IsRecovered (next r s) h = step-IsRecovered s (reach-IsRecovered r h)
