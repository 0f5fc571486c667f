-- ===== src/Server/Actions/Covered.antt =====
-- main.rs: runs with snapshots, and the WAL files that cover the chunks.
use iedb_agent.Base.{
  ℕ, suc, ◌+◌, ◌≡◌, refl, List, [], ◌∷◌, map, Option, none, some, arith, length, All,
}
use iedb_agent.Base.Text.{Bytes}
use iedb_agent.Config.{Config, snapshot_interval_secs}
use iedb_agent.Buffer.Query.{Json}
use iedb_agent.Wal.Serialize.{Codec, IsCodec}
use iedb_agent.Wal.Manager.{WalManager}
use iedb_agent.Node.{Node, flush_tick}
use iedb_agent.Node.Recovered.{IsClean}
use iedb_agent.Node.Covered.{IsCovered, HasRoom}
use iedb_agent.Node.Covered.Flushed.{flush-HasRoom}
use iedb_agent.Http.{Request}
use iedb_agent.Http.Write.Handler.{Surroundings}
use iedb_agent.Http.Write.Handler.Keeps.{handle-keeps}
use iedb_agent.Flush.Parquet.{Writer}
use iedb_agent.Flush.Snapshot.{Site, SnapshotResult, do_snapshot}
use iedb_agent.Flush.Snapshot.Covered.{IsTorn}
use iedb_agent.Flush.Snapshot.Keeps.{AtEnd}
use iedb_agent.Flush.Snapshot.Room.{AreTripsOf, do_snapshot-HasRoom}
use iedb_agent.Server.{Route, write_route, query_route, health_route, not_found, route}
use iedb_agent.Server.Actions.{
  serve, serve_route, after_serving, Event, request, tick, Upload, Action, site_after, event,
  snapshot, run_event, run_events, trip_of, run_action, run_actions,
}

-- The file system refuses a write of a WAL file and leaves nothing, or does it.
abbrev pub IsCleanEvent : Event → Type 0
IsCleanEvent (request env req) = IsClean env.write_outcome
IsCleanEvent (tick now_ms outcome) = IsClean outcome

-- And a failed write of the metadata file leaves it as it was, empty or unreadable.
abbrev pub IsCleanUpload : (Bytes → Option ℕ) → Upload → Type 0
IsCleanUpload read_meta upload =
    All IsCleanEvent upload.first_events
    × All IsCleanEvent upload.events
    × IsTorn read_meta upload.meta_error

abbrev pub IsCleanAction : (Bytes → Option ℕ) → Action → Type 0
IsCleanAction read_meta (event e) = IsCleanEvent e
IsCleanAction read_meta (snapshot now_ns uploads) = All (IsCleanUpload read_meta) uploads

-- How many events there are, those while files are uploaded included.
abbrev pub events_in_uploads : List Upload → ℕ
events_in_uploads [] = 0
events_in_uploads (u ∷ us) = length u.first_events + length u.events + events_in_uploads us

abbrev pub events_in_action : Action → ℕ
events_in_action (event e) = 1
events_in_action (snapshot now_ns uploads) = events_in_uploads uploads

abbrev pub events_in : List Action → ℕ
events_in [] = 0
events_in (a ∷ rest) = events_in_action a + events_in rest

module _ (codec : Codec) (laws : IsCodec codec) (J : Json) (config : Config)
    (read_meta : Bytes → Option ℕ) where
  abbrev Room : ℕ → Node → Type 0
  Room = HasRoom codec read_meta

  lower : (k : ℕ) (node : Node) → Room (suc k) node → Room k node
  lower k node (room, h) = (omega (arith, room), h)

  serve-HasRoom :
      (k : ℕ) (env : Surroundings) (req : Request) (node : Node)
      → IsClean env.write_outcome
      → Room (suc k) node
      → (r : Route) → Room k (after_serving (serve_route codec J config r env req node) node)
  serve-HasRoom k env req node clean (room, h) write_route =
      handle-keeps codec env node (Room k) (λ wal e. (rw e (omega (arith, room)), managed wal e))
        (λ wal e.
          flush-HasRoom codec laws read_meta k env.now_ms env.write_outcome
            (record node { wal = wal }) clean (rw e room, managed wal e))
        config req
    where
      managed :
          (wal : WalManager)
          → wal.current_seq ≡ node.wal.current_seq
          → IsCovered codec read_meta (record node { wal = wal })
      managed wal e = record {
        safe = h.safe;
        below = rw e h.below;
        above = rw e h.above;
        numbers = rw e h.numbers;
        rows = h.rows;
      }
  serve-HasRoom k env req node clean room query_route = lower k node room
  serve-HasRoom k env req node clean room health_route = lower k node room
  serve-HasRoom k env req node clean room not_found = lower k node room

  run_event-HasRoom :
      (k : ℕ) (e : Event) (node : Node)
      → IsCleanEvent e
      → Room (suc k) node
      → Room k (run_event codec J config e node)
  unfolding run_event serve flush_tick
  run_event-HasRoom k (request env req) node clean room =
      serve-HasRoom k env req node clean room (route req.method req.path)
  run_event-HasRoom k (tick now_ms outcome) node clean room =
      flush-HasRoom codec laws read_meta k now_ms outcome node clean room

  run_events-HasRoom :
      (k : ℕ) (es : List Event) (node : Node)
      → All IsCleanEvent es
      → Room (length es + k) node
      → Room k (run_events codec J config es node)
  unfolding run_events
  run_events-HasRoom k [] node clean room = (omega (arith, room.0), room.1)
  run_events-HasRoom k (e ∷ es) node clean room =
      run_events-HasRoom k es (run_event codec J config e node) clean.1
        (run_event-HasRoom (length es + k) e node clean.0 (omega (arith, room.0), room.1))

  trips-AreTripsOf :
      (uploads : List Upload)
      → All (IsCleanUpload read_meta) uploads
      → AreTripsOf codec read_meta
          (events_in_uploads uploads)
          (map (trip_of codec J config) uploads)
  unfolding trip_of
  trips-AreTripsOf [] clean = tt
  trips-AreTripsOf (u ∷ us) ((first_clean, clean, torn), others) = (
    length u.first_events + length u.events,
    events_in_uploads us,
    refl,
    record {
      first_cost = length u.first_events;
      later_cost = length u.events;
      total = refl;
      keeps_first = λ k node room. run_events-HasRoom k u.first_events node first_clean room;
      keeps = λ k node room. run_events-HasRoom k u.events node clean room;
      torn = torn;
    },
    trips-AreTripsOf us others,
  )

  module _ (w : Writer) (encode_meta : ℕ → Bytes)
      (reads : (n : ℕ) → read_meta (encode_meta n) ≡ some n) where
    after-HasRoom :
        (k : ℕ) (site : Site) (r : Option (SnapshotResult ℕ))
        → Room k site.node
        → AtEnd (Room k) r
        → Room k (site_after r site).node
    after-HasRoom k site none room end = room
    after-HasRoom k site (some r) room end = end

    run_action-HasRoom :
        (k : ℕ) (a : Action) (site : Site)
        → IsCleanAction read_meta a
        → Room (events_in_action a + k) site.node
        → Room k (run_action codec J config w encode_meta a site).node
    unfolding run_action
    run_action-HasRoom k (event e) site clean room =
        run_event-HasRoom k e site.node clean (omega (arith, room.0), room.1)
    run_action-HasRoom k (snapshot now_ns uploads) site clean room =
        after-HasRoom k site
          (do_snapshot w encode_meta config (snapshot_interval_secs config) now_ns
            (map (trip_of codec J config) uploads) site)
          (omega (arith, room.0), room.1)
          (do_snapshot-HasRoom codec read_meta encode_meta reads w config
            (events_in_uploads uploads) k (snapshot_interval_secs config) now_ns
            (map (trip_of codec J config) uploads) site (trips-AreTripsOf uploads clean) room)

    -- From a node whose chunks the WAL files cover, every run of events and snapshots, the node's files
    -- numbered below the last `u64`, leads to such a node.
    pub run_actions-HasRoom :
        (k : ℕ) (actions : List Action) (site : Site)
        → All (IsCleanAction read_meta) actions
        → Room (events_in actions + k) site.node
        → Room k (run_actions codec J config w encode_meta actions site).node
    unfolding run_actions
    run_actions-HasRoom k [] site clean room = (omega (arith, room.0), room.1)
    run_actions-HasRoom k (a ∷ rest) site clean room =
        run_actions-HasRoom k rest (run_action codec J config w encode_meta a site) clean.1
          (run_action-HasRoom (events_in rest + k) a site clean.0 (omega (arith, room.0), room.1))
