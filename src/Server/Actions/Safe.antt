-- ===== src/Server/Actions/Safe.antt =====
-- main.rs: the answers to queries in runs with snapshots.
use iedb_agent.Base.{ℕ, ◌≡◌, List, [], ◌∷◌, map, Option, none, some, All}
use iedb_agent.Base.Text.{Str, Bytes, codes}
use iedb_agent.Config.{Config, snapshot_interval_secs}
use iedb_agent.Buffer.{Buffer}
use iedb_agent.Buffer.Query.{Json}
use iedb_agent.Wal.Serialize.{Codec}
use iedb_agent.Wal.Files.{Disk}
use iedb_agent.Wal.Contents.{IsSafe, query_total}
use iedb_agent.Node.{Node, boot}
use iedb_agent.Node.Safe.{boot-IsSafe, flush_tick-IsSafe}
use iedb_agent.Http.{Request}
use iedb_agent.Http.Query
use iedb_agent.Http.Query.{
  Response, panicked, query_params, get_param, query_text, tag_filters, to_ns,
}
use iedb_agent.Http.Write.Handler.{Surroundings}
use iedb_agent.Http.Write.Handler.Safe.{handle-IsSafe}
use iedb_agent.Flush.Parquet.{Writer}
use iedb_agent.Flush.Snapshot.{Site, SnapshotResult, do_snapshot}
use iedb_agent.Flush.Snapshot.Keeps.{AtEnd}
use iedb_agent.Flush.Snapshot.Safe.{KeepsSafe, do_snapshot-IsSafe}
use iedb_agent.Server.{Route, write_route, query_route, health_route, not_found, route}
use iedb_agent.Server.Actions.{
  Served, served_write, served_query, served_health, served_not_found, serve, serve_route,
  after_serving, Event, request, tick, Upload, Action, site_after, event, snapshot, run_event,
  run_events, trip_of, run_action, run_actions,
}

-- Not a panic in a query.
abbrev pub IsAnswered : {J : Json} → Served J → Type 0
IsAnswered (served_query panicked) = ⊥
IsAnswered (served_query (Query.missing_table)) = Unit
IsAnswered (served_query (Query.ok_rows rows)) = Unit
IsAnswered (served_write outcome) = Unit
IsAnswered served_health = Unit
IsAnswered served_not_found = Unit

module _ (J : Json) (buffer : Buffer) (h : IsSafe buffer) where
  query_params-IsAnswered :
      (params : List (Str × Str)) (table : Option Str)
      → IsAnswered (served_query (query_params J params buffer table))
  unfolding query_params
  query_params-IsAnswered params none = tt
  query_params-IsAnswered params (some table) =
      answered _ (query_total J buffer _ table _ _ _ _ h).0
        (query_total J buffer _ table _ _ _ _ h).1
    where
      answered : (o : _) (out : _) → o ≡ some out → IsAnswered (served_query (Query.answer J o))
      answered o none e = rw e tt
      answered o (some rows) e = rw e tt

module _ (codec : Codec) (J : Json) (config : Config) where
  serve-IsAnswered :
      (env : Surroundings) (req : Request) (node : Node)
      → IsSafe node.buffer
      → IsAnswered (serve codec J config env req node)
  unfolding serve Query.handle
  serve-IsAnswered env req node h = at (route req.method req.path)
    where
      at : (r : Route) → IsAnswered (serve_route codec J config r env req node)
      at write_route = tt
      at query_route =
          let params = env.parse_query (query_text req.query) in
          query_params-IsAnswered J node.buffer h params (get_param (codes "table") params)
      at health_route = tt
      at not_found = tt

  serve-IsSafe :
      (env : Surroundings) (req : Request) (node : Node)
      → IsSafe node.buffer
      → (r : Route) → IsSafe (after_serving (serve_route codec J config r env req node) node).buffer
  serve-IsSafe env req node h write_route = handle-IsSafe codec env node h config req
  serve-IsSafe env req node h query_route = h
  serve-IsSafe env req node h health_route = h
  serve-IsSafe env req node h not_found = h

  run_event-IsSafe :
      (e : Event) (node : Node)
      → IsSafe node.buffer
      → IsSafe (run_event codec J config e node).buffer
  unfolding run_event serve
  run_event-IsSafe (request env req) node h =
      serve-IsSafe env req node h (route req.method req.path)
  run_event-IsSafe (tick now_ms outcome) node h = flush_tick-IsSafe codec now_ms outcome node h

  run_events-IsSafe :
      (es : List Event) (node : Node)
      → IsSafe node.buffer
      → IsSafe (run_events codec J config es node).buffer
  unfolding run_events
  run_events-IsSafe [] node h = h
  run_events-IsSafe (e ∷ es) node h =
      run_events-IsSafe es (run_event codec J config e node) (run_event-IsSafe e node h)

  trips-KeepsSafe : (uploads : List Upload) → All KeepsSafe (map (trip_of codec J config) uploads)
  unfolding trip_of
  trips-KeepsSafe [] = tt
  trips-KeepsSafe (u ∷ us) = (
    (
      (λ node h. run_events-IsSafe u.first_events node h),
      (λ node h. run_events-IsSafe u.events node h),
    ),
    trips-KeepsSafe us,
  )

  module _ (w : Writer) (encode_meta : ℕ → Bytes) where
    after-IsSafe :
        (site : Site) (r : Option (SnapshotResult ℕ))
        → IsSafe site.node.buffer
        → AtEnd (λ (n : Node). IsSafe n.buffer) r
        → IsSafe (site_after r site).node.buffer
    after-IsSafe site none h end = h
    after-IsSafe site (some r) h end = end

    run_actions-IsSafe :
        (actions : List Action) (site : Site)
        → IsSafe site.node.buffer
        → IsSafe (run_actions codec J config w encode_meta actions site).node.buffer
    unfolding run_actions run_action
    run_actions-IsSafe [] site h = h
    run_actions-IsSafe (event e ∷ rest) site h =
        run_actions-IsSafe rest (record site { node = run_event codec J config e site.node })
          (run_event-IsSafe e site.node h)
    run_actions-IsSafe (snapshot now_ns uploads ∷ rest) site h =
        let trips = map (trip_of codec J config) uploads in
        let secs = snapshot_interval_secs config in
        let r = do_snapshot w encode_meta config secs now_ns trips site in
        run_actions-IsSafe rest (site_after r site) (
          after-IsSafe site r h (
            do_snapshot-IsSafe w encode_meta config secs now_ns trips site (trips-KeepsSafe uploads)
              h))

-- After a start-up from any disk, whatever its files hold, and any run of requests, background
-- flushes and snapshots, with whatever the server and the file system answer, no request is a query
-- that panics.
pub run_actions-IsAnswered :
    (codec : Codec) (J : Json) (config : Config) (w : Writer) (encode_meta : ℕ → Bytes)
    (read_meta : Bytes → Option ℕ) (limit : ℕ) (disk : Disk) (actions : List Action)
    (env : Surroundings) (req : Request)
    → let first : Site = record {
      node = boot codec read_meta limit disk;
      staging = [];
      uploaded = [];
    } in
      let last = run_actions codec J config w encode_meta actions first in
      IsAnswered (serve codec J config env req last.node)
run_actions-IsAnswered codec J config w encode_meta read_meta limit disk actions env req =
    let first : Site = record {
      node = boot codec read_meta limit disk;
      staging = [];
      uploaded = [];
    } in
    serve-IsAnswered codec J config env req
      (run_actions codec J config w encode_meta actions first).node
      (run_actions-IsSafe codec J config w encode_meta actions first
        (boot-IsSafe codec read_meta limit disk))
