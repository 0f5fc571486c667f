-- ===== src/Tests/Agent.antt =====
-- Heartbeats at concrete inputs.
use iedb_agent.Base.{◌≡◌, List, [], ◌∷◌, ◌++◌, map, All}
use iedb_agent.Base.Text.{codes}
use iedb_agent.Flush.Upload.{no_answer, answered}
use iedb_agent.Agent.Requests.{
  JsonPost, HeartbeatRequest, agent_addr, heartbeat_request, heartbeat_loop,
}
use iedb_agent.Agent.Heartbeats.{IsSilent, heartbeat_loop-IsSilent}
use iedb_agent.Base.Text.{Str}
use iedb_agent.Base.Dict.{lookup}
use iedb_agent.Agent.{TableChange, State, entries, compute_table_changes}
use iedb_agent.Agent.Changes.{IsDistinct}
use iedb_agent.Agent.Reported.{IsReported, IsGone, HasKey, IsUpToDate, compute_table_changes_lem}
use iedb_agent.Tests.Data.{full_buffer, config}

one_table : IsDistinct (entries full_buffer.databases)
unfolding entries
one_table = (tt, tt)

compute_table_changes_lem_example :
    let es = entries full_buffer.databases in
    let after = compute_table_changes full_buffer [] in
    (reported : List TableChange) × (middle : State) × (dropped : List TableChange) × (after.0
      ≡ reported ++ dropped)
    × IsReported [] es reported
    × IsGone es middle dropped
    × ((k : Str) → ¬ HasKey k es → lookup k middle ≡ lookup k [])
    × All (IsUpToDate after.1) es
compute_table_changes_lem_example = compute_table_changes_lem full_buffer [] one_table

heartbeat_loop-IsSilent_example :
    (others : List (JsonPost HeartbeatRequest)) × (heartbeat_loop config
        (agent_addr config)
        (map (λ a. (full_buffer, a)) (no_answer (codes "timeout") ∷ answered 200 [] ∷ []))
        []
      ≡ heartbeat_request config (agent_addr config) (compute_table_changes full_buffer []).0
        ∷ others)
    × All IsSilent others
heartbeat_loop-IsSilent_example =
    heartbeat_loop-IsSilent config (agent_addr config) full_buffer one_table
      (no_answer (codes "timeout")) (answered 200 [] ∷ []) []
