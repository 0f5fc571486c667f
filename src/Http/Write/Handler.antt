-- ===== src/Http/Write/Handler.antt =====
-- http/write.rs: the handler itself, its answers and what it leaves behind.
pub mod Keeps
pub mod Durable
pub mod Refused
pub mod Acknowledged
pub mod Safe
use iedb_agent.Base.{
  ℕ, ◌+◌, ◌-◌, ◌≡◌, Bool, true, false, List, [], ◌∷◌, ◌++◌, map, Option, none, some, length,
  is_empty, ltb, find_by, if◌then◌else◌,
}
use iedb_agent.Base.Int.{ℤ}
use iedb_agent.Base.Text.{Str, Bytes, codes, str_eq}
use iedb_agent.Base.Parse.{parse_unsigned}
use iedb_agent.Base.Utf8.{from_utf8}
use iedb_agent.Base.Dict.{Dict}
use iedb_agent.Config.{Config, snapshot_interval_secs}
use iedb_agent.Wal.{WriteBatch, WalOp, write}
use iedb_agent.Wal.Serialize.{Codec}
use iedb_agent.Wal.Apply.{apply_ops}
use iedb_agent.Wal.Manager.{
  WalManager, WalError, WalResult, WriteOutcome, Flushed, done, failed, buffer_op, flush,
}
use iedb_agent.Node.{Node}
use iedb_agent.Http.{Method, Request}
use iedb_agent.Http.Write.{ParsedLine, TableRows, collect_lines}
use iedb_agent.Http.Write.Batches.{interval_ns, batches_of, total_rows}

-- The status and the body of a response; the texts of the bodies are their constructors' names.
pub data Response : Type 0 where
  method_not_allowed : Response
  payload_too_large : ℕ → Response
  invalid_utf8 : Response
  no_rows : Response
  wal_buffer_error : WalError → Response
  wal_flush_error : WalError → Response
  no_content : ℕ → Response

-- How a call ends, with what it leaves: an answer, a broken connection, or a panic.
pub data Outcome : Type 0 where
  respond : Response → Node → Outcome
  hyper_error : Node → Outcome
  panicked : Node → Outcome

-- What the handler uses of other crates and of its surroundings.
pub record Surroundings : Type 0 where
  pub parse_query : Str → List (Str × Str)
  pub parse_lines : Str → List (Option ParsedLine)
  pub usize_mod : ℕ
  pub clock_ns : ℕ → ℤ
  pub now_ms : ℤ
  pub write_outcome : WriteOutcome

abbrev text_or : Option (Str × Str) → Str → Str
text_or none d = d
text_or (some (_, v)) d = v

abbrev pairs_or_none : (Str → List (Str × Str)) → Option Str → List (Str × Str)
pairs_or_none parse none = []
pairs_or_none parse (some q) = parse q

-- The database of the query string, or "default".
unfoldable pub db_of : Surroundings → Request → Str
db_of env req =
    text_or (find_by (λ p. str_eq p.0 (codes "db")) (pairs_or_none env.parse_query req.query))
      (codes "default")

abbrev length_or_zero : (Str → Option ℕ) → Option Str → ℕ
length_or_zero parse none = 0
length_or_zero parse (some v) = elim (parse v) [ none ↦ 0 | some n ↦ n ]

unfoldable pub content_length : Surroundings → Request → ℕ
unfolding parse_unsigned
content_length env req = length_or_zero (parse_unsigned (env.usize_mod - 1)) req.content_length

-- The loop over the batches, up to the first that the manager refuses.
unfoldable pub buffer_all : List WriteBatch → WalManager → WalResult (Unit {0}) × WalManager
buffer_all [] wal = (done tt, wal)
buffer_all (batch ∷ batches) wal =
    let (r, wal') = buffer_op (write batch) wal in
    elim r [ failed e ↦ (failed e, wal') | done _ ↦ buffer_all batches wal' ]

-- After a flush: its operations go into the buffer, or the error is answered.
unfoldable pub finish : ℕ → Flushed → Node → Outcome
unfolding apply_ops
finish rows (done (seq, ops), wal, disk) node =
    respond (no_content rows)
      (record { buffer = apply_ops seq ops node.buffer; wal = wal; disk = disk })
finish rows (failed e, wal, disk) node =
    respond (wal_flush_error e) (record node { wal = wal; disk = disk })

abbrev pub is_post : Method → Bool
is_post Method.post = true
is_post _ = false

module _ (codec : Codec) (env : Surroundings) where
  unfoldable pub after_buffering : ℕ → WalResult (Unit {0}) × WalManager → Node → Outcome
  unfolding finish flush
  after_buffering rows (done _, wal) node =
      finish rows (flush codec env.now_ms env.write_outcome wal node.disk) node
  after_buffering rows (failed e, wal) node =
      respond (wal_buffer_error e) (record node { wal = wal })

  -- The batches go to the WAL and then to the buffer.
  unfoldable pub commit : List WriteBatch → Node → Outcome
  unfolding after_buffering buffer_all buffer_op total_rows
  commit batches node = after_buffering (total_rows batches) (buffer_all batches node.wal) node

  unfoldable pub write_batches : Option (List WriteBatch) → Node → Outcome
  unfolding commit
  write_batches none node = panicked node
  write_batches (some batches) node = commit batches node

  unfoldable pub write_tables : Config → Str → Dict TableRows → Node → Outcome
  unfolding write_batches interval_ns snapshot_interval_secs batches_of
  write_tables config db [] node = respond no_rows node
  write_tables config db (t ∷ ts) node =
      write_batches (batches_of (interval_ns (snapshot_interval_secs config)) db (t ∷ ts)) node

  unfoldable pub write_text : Config → Str → Option Str → Node → Outcome
  unfolding write_tables collect_lines
  write_text config db none node = respond invalid_utf8 node
  write_text config db (some lp_str) node =
      write_tables config db (collect_lines env.clock_ns (env.parse_lines lp_str) []) node

  unfoldable pub write_body : Config → Str → Option Bytes → Node → Outcome
  unfolding write_text from_utf8
  write_body config db none node = hyper_error node
  write_body config db (some body) node =
      if ltb config.max_body_bytes (length body)
      then respond (payload_too_large config.max_body_bytes) node
      else write_text config db (from_utf8 body) node

  unfoldable pub handle : Config → Request → Node → Outcome
  unfolding write_body content_length db_of
  handle config req node =
      if is_post req.method
      then if ltb config.max_body_bytes (content_length env req)
        then respond (payload_too_large config.max_body_bytes) node
        else write_body config (db_of env req) req.body node
      else respond method_not_allowed node
