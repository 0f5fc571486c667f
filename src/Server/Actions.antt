-- ===== src/Server/Actions.antt =====
-- main.rs: the service of requests, and runs of everything that changes the state: requests, rounds
-- of the background flush, and snapshots with other tasks at work while a file is uploaded.
pub mod Covered
pub mod Crash
pub mod Safe
use iedb_agent.Base.{ℕ, ◌+◌, List, [], ◌∷◌, map, Option, none, some}
use iedb_agent.Base.Int.{ℤ}
use iedb_agent.Base.Text.{Str, Bytes}
use iedb_agent.Config.{Config, snapshot_interval_secs}
use iedb_agent.Buffer.Query.{Json}
use iedb_agent.Wal.Serialize.{Codec}
use iedb_agent.Wal.Manager.{WriteOutcome}
use iedb_agent.Node.{Node, flush_tick}
use iedb_agent.Http.{Request}
use iedb_agent.Http.Query
use iedb_agent.Http.Query.{Response}
use iedb_agent.Http.Write.Handler
use iedb_agent.Http.Write.Handler.{Surroundings, Outcome}
use iedb_agent.Http.Write.Handler.Keeps.{node_of}
use iedb_agent.Flush.Parquet.{Writer}
use iedb_agent.Flush.Upload.{Answer}
use iedb_agent.Flush.Snapshot.{Site, SnapshotResult, Trip, do_snapshot}
use iedb_agent.Flush.Snapshot.Cycle.{the_site}
use iedb_agent.Server.{Route, write_route, query_route, health_route, not_found, route}

-- What the service makes of a request: the outcome of a handler, 200 with "ok", or 404 with
-- "not found".
pub data Served (J : Json) : Type 0 where
  served_write : Outcome → Served J
  served_query : Response J → Served J
  served_health : Served J
  served_not_found : Served J

module _ (codec : Codec) (J : Json) (config : Config) where
  abbrev serve_route : Route → Surroundings → Request → Node → Served J
  serve_route write_route env req node = served_write (Handler.handle codec env config req node)
  serve_route query_route env req node =
      served_query (Query.handle J env.parse_query req node.buffer)
  serve_route health_route env req node = served_health
  serve_route not_found env req node = served_not_found

  -- The function of a connection, given to `service_fn`.
  unfoldable pub serve : Surroundings → Request → Node → Served J
  unfolding route
  serve env req node = serve_route (route req.method req.path) env req node

-- The node after a request: only the write handler changes it.
abbrev pub after_serving : {J : Json} → Served J → Node → Node
after_serving (served_write outcome) node = node_of outcome
after_serving (served_query response) node = node
after_serving served_health node = node
after_serving served_not_found node = node

-- What can happen at the node at any time: a request, or a round of the background flush.
pub data Event : Type 0 where
  request : Surroundings → Request → Event
  tick : ℤ → WriteOutcome → Event

-- One table's flush as the outside sees it: what happens at the node between the cloning of the
-- chunks and that of the table, and from there to the answer, the answer, and the errors of the file system.
pub record Upload : Type 0 where
  pub first_events : List Event
  pub events : List Event
  pub answer : Answer
  pub meta_error : Option (Str × Option (Option Bytes))
  pub staging_error : Option Str
  pub ts : Str

-- A step of the whole program; a snapshot at a time of the calendar, with its uploads.
pub data Action : Type 0 where
  event : Event → Action
  snapshot : ℤ → List Upload → Action

-- A snapshot that panics ends its task, and leaves the rest as it was.
abbrev pub site_after : Option (SnapshotResult ℕ) → Site → Site
site_after none site = site
site_after (some r) site = the_site r

module _ (codec : Codec) (J : Json) (config : Config) where
  unfoldable pub run_event : Event → Node → Node
  unfolding serve flush_tick
  run_event (request env req) node = after_serving (serve codec J config env req node) node
  run_event (tick now_ms outcome) node = flush_tick codec now_ms outcome node

  unfoldable pub run_events : List Event → Node → Node
  unfolding run_event
  run_events [] node = node
  run_events (e ∷ es) node = run_events es (run_event e node)

  unfoldable pub trip_of : Upload → Trip
  unfolding run_events
  trip_of upload = record {
    between = run_events upload.first_events;
    meanwhile = run_events upload.events;
    answer = upload.answer;
    meta_error = upload.meta_error;
    staging_error = upload.staging_error;
    ts = upload.ts;
  }

  module _ (w : Writer) (encode_meta : ℕ → Bytes) where
    unfoldable pub run_action : Action → Site → Site
    unfolding run_event trip_of do_snapshot snapshot_interval_secs
    run_action (event e) site = record site { node = run_event e site.node }
    run_action (snapshot now_ns uploads) site =
        site_after
          (do_snapshot w encode_meta config (snapshot_interval_secs config) now_ns
            (map trip_of uploads) site)
          site

    unfoldable pub run_actions : List Action → Site → Site
    unfolding run_action
    run_actions [] site = site
    run_actions (a ∷ rest) site = run_actions rest (run_action a site)
