-- ===== src/Http.antt =====
-- http/: the handlers of `/write` and `/query`, with what hyper gives them and takes from them.
pub mod Write
pub mod Query
pub mod Answers
use iedb_agent.Base.{ℕ, Option}
use iedb_agent.Base.Text.{Str, Bytes}

pub data Method : Type 0 where
  get post other : Method

-- A request: the content length as text if the header is there and readable, the query string, and
-- the collected body, or `none` if the connection fails.
pub record Request : Type 0 where
  pub method : Method
  pub path : Str
  pub content_length : Option Str
  pub query : Option Str
  pub body : Option Bytes
