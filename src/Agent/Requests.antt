-- ===== src/Agent/Requests.antt =====
-- agent/mod.rs and main.rs: the requests of registration and heartbeat, and the loop that sends them.
use iedb_agent.Base.{ℕ, List, [], ◌∷◌, ◌++◌, Option, none, some, if◌then◌else◌}
use iedb_agent.Base.Text.{Str, codes}
use iedb_agent.Base.Decimal.{decimal}
use iedb_agent.Config.{Config, auth_header}
use iedb_agent.Buffer.{Buffer}
use iedb_agent.Flush.Upload.{Answer, no_answer, answered, is_success}
use iedb_agent.Agent.{TableChange, State, compute_table_changes}

pub record RegisterRequest : Type 0 where
  pub id : Str
  pub url : Str

pub record HeartbeatRequest : Type 0 where
  pub id : Str
  pub url : Str
  pub tables_changed : List TableChange

-- A POST with a body that reqwest renders as JSON.
pub record JsonPost (B : Type 0) : Type 0 where
  pub url : Str
  pub authorization : Option Str
  pub body : B

-- The URL at which the server reaches this agent.
unfoldable pub agent_addr : Config → Str
unfolding decimal
agent_addr config = elim config.agent_url [
  | some url ↦ url
  | none ↦ codes "http://localhost:" ++ decimal config.port
]

-- The error of a request, with the text of the status as reqwest renders it.
abbrev error_of : (ℕ → Str) → Str → Answer → Option Str
error_of status_text what (no_answer e) = some (what ++ (codes ": " ++ e))
error_of status_text what (answered status body) =
    if is_success status then none else some (what ++ (codes " failed: " ++ status_text status))

module _ (config : Config) (agent_url : Str) where
  unfoldable pub register_request : JsonPost RegisterRequest
  unfolding auth_header
  register_request = record {
    url = config.iotedgedb_url ++ codes "/api/v1/agents/register";
    authorization = auth_header config;
    body = record { id = config.agent_id; url = agent_url };
  }

  unfoldable pub heartbeat_request : List TableChange → JsonPost HeartbeatRequest
  unfolding auth_header
  heartbeat_request tables_changed = record {
    url = config.iotedgedb_url ++ codes "/api/v1/agents/heartbeat";
    authorization = auth_header config;
    body = record { id = config.agent_id; url = agent_url; tables_changed = tables_changed };
  }

  -- `register` and `heartbeat`, by the answer.
  unfoldable pub register : (ℕ → Str) → Answer → Option Str
  register status_text answer = error_of status_text (codes "register") answer

  unfoldable pub heartbeat : (ℕ → Str) → Answer → Option Str
  heartbeat status_text answer = error_of status_text (codes "heartbeat") answer

  -- `heartbeat_loop`: what is sent, given the buffers that the rounds find. The answers are only
  -- logged.
  unfoldable pub heartbeat_loop : List (Buffer × Answer) → State → List (JsonPost HeartbeatRequest)
  unfolding compute_table_changes heartbeat_request
  heartbeat_loop [] last_state = []
  heartbeat_loop ((buffer, answer) ∷ rounds) last_state =
      let (changed, next) = compute_table_changes buffer last_state in
      heartbeat_request changed ∷ heartbeat_loop rounds next
