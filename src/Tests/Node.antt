-- ===== src/Tests/Node.antt =====
-- Runs of the node at concrete inputs.
use iedb_agent.Base.{refl, none, arith}
use iedb_agent.Base.Int.{pos}
use iedb_agent.Base.Text.{codes}
use iedb_agent.Wal.Files.{files_above, sort_by_seq}
use iedb_agent.Wal.Manager.{refused, flush, replay, replay_files, load_last_snapshot}
use iedb_agent.Node.{Node, apply_flushed}
use iedb_agent.Node.Recovered.{IsRecovered, flush-IsRecovered}
use iedb_agent.Http.Write.Handler.{handle}
use iedb_agent.Http.Write.Handler.Keeps.{node_of}
use iedb_agent.Http.Write.Handler.Durable.{handle-IsRecovered}
use iedb_agent.Server.{Reach, here, next}
use iedb_agent.Server
use iedb_agent.Server.Run.{reach-IsRecovered}
use iedb_agent.Tests.Codec.{test_codec, test_codec-IsCodec}
use iedb_agent.Tests.Data.{first_node, read_meta, surroundings, request, config}

first_node-IsRecovered : IsRecovered test_codec read_meta first_node
unfolding replay replay_files load_last_snapshot files_above sort_by_seq
first_node-IsRecovered = record { replayed = refl; below = tt; above = omega arith }

abbrev second_node : Node
second_node = node_of (handle test_codec surroundings config request first_node)

reach-IsRecovered_example : IsRecovered test_codec read_meta second_node
reach-IsRecovered_example =
    reach-IsRecovered test_codec test_codec-IsCodec read_meta config
      (next here (Server.request surroundings request tt (omega arith) refl)) first_node-IsRecovered

handle-IsRecovered_example : IsRecovered test_codec read_meta second_node
handle-IsRecovered_example =
    handle-IsRecovered test_codec test_codec-IsCodec read_meta surroundings tt first_node
      (omega arith) first_node-IsRecovered config request

flush-IsRecovered_example : IsRecovered test_codec read_meta (
    apply_flushed
      (flush test_codec
        (pos 1700)
        (refused (codes "disk full") none)
        first_node.wal
        first_node.disk)
      first_node.buffer)
flush-IsRecovered_example =
    flush-IsRecovered test_codec test_codec-IsCodec read_meta (pos 1700)
      (refused (codes "disk full") none) first_node tt (omega arith) first_node-IsRecovered
