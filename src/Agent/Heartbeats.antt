-- ===== src/Agent/Heartbeats.antt =====
-- agent/mod.rs: heartbeats over a buffer that does not change.
use iedb_agent.Base.{◌≡◌, refl, sym, ap, subst, List, [], ◌∷◌, map, All}
use iedb_agent.Base.Text.{Str}
use iedb_agent.Config.{Config}
use iedb_agent.Buffer.{Buffer}
use iedb_agent.Flush.Upload.{Answer}
use iedb_agent.Agent.{State, compute_table_changes, entries}
use iedb_agent.Agent.Changes.{IsDistinct}
use iedb_agent.Agent.Silence.{compute_table_changes_again}
use iedb_agent.Agent.Requests.{JsonPost, HeartbeatRequest, heartbeat_request, heartbeat_loop}

abbrev pub IsSilent : JsonPost HeartbeatRequest → Type 0
IsSilent post = post.body.tables_changed ≡ []

module _ (config : Config) (agent_url : Str) (buffer : Buffer)
    (distinct : IsDistinct (entries buffer.databases)) where
  still-IsSilent :
      (answers : List Answer) (last_state : State)
      → compute_table_changes buffer last_state ≡ ([], last_state)
      → All IsSilent
          (heartbeat_loop config agent_url (map (λ answer. (buffer, answer)) answers) last_state)
  unfolding heartbeat_loop heartbeat_request
  still-IsSilent [] last_state h = tt
  still-IsSilent (answer ∷ answers) last_state h = (
    ap (λ r. r.0) h,
    subst (λ s. All IsSilent (heartbeat_loop config agent_url (map (λ a. (buffer, a)) answers) s))
        (sym (ap (λ r. r.1) h)) (still-IsSilent answers last_state h),
  )

  -- If no two tables have the same key, then of the heartbeats over the same buffer the first reports
  -- the changes, and no other reports any, whatever is answered to the first and to the others: a
  -- change whose report fails is not reported again.
  pub heartbeat_loop-IsSilent :
      (first : Answer) (answers : List Answer) (last_state : State)
      → (others : List (JsonPost HeartbeatRequest)) × (heartbeat_loop config agent_url
            (map (λ answer. (buffer, answer)) (first ∷ answers))
            last_state
          ≡ heartbeat_request config agent_url (compute_table_changes buffer last_state).0 ∷ others)
        × All IsSilent others
  unfolding heartbeat_loop
  heartbeat_loop-IsSilent first answers last_state =
      let next = (compute_table_changes buffer last_state).1 in
      (
        heartbeat_loop config agent_url (map (λ answer. (buffer, answer)) answers) next,
        refl,
        still-IsSilent answers next (compute_table_changes_again buffer last_state distinct),
      )
