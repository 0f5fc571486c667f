-- ===== src/Http/Answers.antt =====
-- http/write.rs, http/query.rs, main.rs and wal/wal_core.rs: the statuses and texts of the answers.
use iedb_agent.Base.{ℕ, List, ◌++◌, Option, none, some}
use iedb_agent.Base.Text.{Str, codes}
use iedb_agent.Base.Decimal.{decimal}
use iedb_agent.Buffer.Query.{Json, QueryRow}
use iedb_agent.Wal.Manager.{WalError, buffer_full, write_error}
use iedb_agent.Http.Query
use iedb_agent.Http.Write.Handler

pub record HttpAnswer : Type 0 where
  pub status : ℕ
  pub content_type : Option Str
  pub body : Str

abbrev plain : ℕ → Str → HttpAnswer
plain status body = record { status = status; content_type = none; body = body }

-- `Display` of `WalError`; a write error has its text from `flush`.
unfoldable pub wal_error_text : WalError → Str
unfolding decimal
wal_error_text (buffer_full n) = codes "WAL buffer full with " ++ (decimal n ++ codes " ops")
wal_error_text (write_error seq e) =
    codes "WAL write error: write WAL " ++ (decimal seq ++ (codes ": " ++ e))

unfoldable pub write_answer : Handler.Response → HttpAnswer
unfolding decimal wal_error_text
write_answer Handler.method_not_allowed = plain 405 (codes "POST only")
write_answer (Handler.payload_too_large limit) =
    plain 413 (codes "body exceeds " ++ (decimal limit ++ codes " bytes limit"))
write_answer Handler.invalid_utf8 = plain 400 (codes "invalid utf-8")
write_answer Handler.no_rows = plain 204 (codes "0 rows")
write_answer (Handler.wal_buffer_error e) =
    plain 503 (codes "WAL buffer error: " ++ wal_error_text e)
write_answer (Handler.wal_flush_error e) = plain 503 (codes "WAL flush error: " ++ wal_error_text e)
write_answer (Handler.no_content rows) = plain 204 (decimal rows ++ codes " rows")

module _ (J : Json) (to_string : List (QueryRow J) → Option Str) where
  abbrev json_or_empty : Option Str → Str
  json_or_empty none = codes "{\"rows\":[]}"
  json_or_empty (some json) = json

  -- `to_string` is serde_json's rendering of { "rows": rows }; `none` is a panic, without an answer.
  unfoldable pub query_answer : Query.Response J → Option HttpAnswer
  query_answer Query.missing_table = some (plain 400 (codes "{\"error\":\"missing table param\"}"))
  query_answer (Query.ok_rows rows) = some (record {
    status = 200;
    content_type = some (codes "application/json");
    body = json_or_empty (to_string rows);
  })
  query_answer Query.panicked = none
