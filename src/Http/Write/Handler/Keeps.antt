-- ===== src/Http/Write/Handler/Keeps.antt =====
-- http/write.rs: what a call of the handler can do to the node, a new WAL manager or a flush.
use iedb_agent.Base.{
  ℕ, ◌≡◌, refl, List, [], ◌∷◌, Option, none, some, arith, length, ltb, Bool-cases, inl, inr,
}
use iedb_agent.Base.Text.{Str, Bytes}
use iedb_agent.Base.Utf8.{from_utf8}
use iedb_agent.Base.Dict.{Dict}
use iedb_agent.Config.{Config, snapshot_interval_secs}
use iedb_agent.Wal.{WriteBatch, write}
use iedb_agent.Wal.Serialize.{Codec}
use iedb_agent.Wal.Manager.{WalManager, WalResult, Flushed, done, failed, buffer_op, flush}
use iedb_agent.Node.{Node, apply_flushed}
use iedb_agent.Http.{Request}
use iedb_agent.Http.Write.{TableRows, collect_lines}
use iedb_agent.Http.Write.Batches.{interval_ns, batches_of, total_rows}
use iedb_agent.Http.Write.Handler.{
  Response, method_not_allowed, payload_too_large, invalid_utf8, no_rows, wal_buffer_error, Outcome,
  respond, hyper_error, panicked, Surroundings, buffer_all, finish, after_buffering, commit,
  write_batches, write_tables, write_text, write_body, handle, content_length, db_of, is_post,
}

-- The state that a call leaves, however it ends.
abbrev pub node_of : Outcome → Node
node_of (respond r node) = node
node_of (hyper_error node) = node
node_of (panicked node) = node

current_seq-buffer_all :
    (batches : List WriteBatch) (wal : WalManager)
    → (buffer_all batches wal).1.current_seq ≡ wal.current_seq
unfolding buffer_all buffer_op
current_seq-buffer_all [] wal = refl
current_seq-buffer_all (b ∷ bs) wal =
    ground (arith, current_seq-buffer_all bs (buffer_op (write b) wal).1)

-- How a call can end: at once, or after the flush of a manager of the same number.
module _ {κ} (codec : Codec) (env : Surroundings) (node : Node) (P : Outcome → Type κ)
    (panics : P (panicked node)) (breaks : P (hyper_error node))
    (answers : (r : Response) (wal : WalManager)
      → wal.current_seq ≡ node.wal.current_seq
      → P (respond r (record node { wal = wal })))
    (finishes : (rows : ℕ) (wal : WalManager)
      → wal.current_seq ≡ node.wal.current_seq
      → P (finish rows (flush codec env.now_ms env.write_outcome wal node.disk) node)) where
  after_buffering-ends :
      (rows : ℕ) (r : WalResult (Unit {0}) × WalManager)
      → r.1.current_seq ≡ node.wal.current_seq
      → P (after_buffering codec env rows r node)
  unfolding after_buffering
  after_buffering-ends rows (done u, wal) e = finishes rows wal e
  after_buffering-ends rows (failed x, wal) e = answers (wal_buffer_error x) wal e

  write_batches-ends :
      (batches : Option (List WriteBatch)) → P (write_batches codec env batches node)
  unfolding write_batches commit
  write_batches-ends none = panics
  write_batches-ends (some batches) =
      after_buffering-ends (total_rows batches) (buffer_all batches node.wal)
        (current_seq-buffer_all batches node.wal)

  write_tables-ends :
      (config : Config) (db : Str) (tables : Dict TableRows)
      → P (write_tables codec env config db tables node)
  unfolding write_tables
  write_tables-ends config db [] = answers no_rows node.wal refl
  write_tables-ends config db (t ∷ ts) =
      write_batches-ends (batches_of (interval_ns (snapshot_interval_secs config)) db (t ∷ ts))

  write_text-ends :
      (config : Config) (db : Str) (text : Option Str)
      → P (write_text codec env config db text node)
  unfolding write_text
  write_text-ends config db none = answers invalid_utf8 node.wal refl
  write_text-ends config db (some lp_str) =
      write_tables-ends config db (collect_lines env.clock_ns (env.parse_lines lp_str) [])

  write_body-ends :
      (config : Config) (db : Str) (body : Option Bytes)
      → P (write_body codec env config db body node)
  unfolding write_body
  write_body-ends config db none = breaks
  write_body-ends config db (some body) =
      elim (Bool-cases (ltb config.max_body_bytes (length body))) [
        | inl large ↦ rw large (answers (payload_too_large config.max_body_bytes) node.wal refl)
        | inr small ↦ rw small (write_text-ends config db (from_utf8 body))
      ]

  -- What holds of every such end holds of the end of a call.
  pub handle-ends : (config : Config) (req : Request) → P (handle codec env config req node)
  unfolding handle
  handle-ends config req = elim (Bool-cases (is_post req.method)) [
    | inl post ↦ rw post (elim (Bool-cases (ltb config.max_body_bytes (content_length env req))) [
      | inl large ↦ rw large (answers (payload_too_large config.max_body_bytes) node.wal refl)
      | inr small ↦ rw small (write_body-ends config (db_of env req) req.body)
    ])
    | inr other ↦ rw other (answers method_not_allowed node.wal refl)
  ]

finish-keeps {κ} :
    (P : Node → Type κ) (rows : ℕ) (f : Flushed) (node : Node)
    → P (apply_flushed f node.buffer)
    → P (node_of (finish rows f node))
unfolding finish
finish-keeps P rows (done (seq, ops), wal, disk) node p = p
finish-keeps P rows (failed e, wal, disk) node p = p

-- What holds of the node with any manager of the same number, and after a flush of such a one with
-- its operations in the buffer, holds after a call.
pub handle-keeps {κ} :
    (codec : Codec) (env : Surroundings) (node : Node) (P : Node → Type κ)
    → ((wal : WalManager) → wal.current_seq ≡ node.wal.current_seq → P (record node { wal = wal }))
    → ((wal : WalManager)
        → wal.current_seq ≡ node.wal.current_seq
        → P (apply_flushed (flush codec env.now_ms env.write_outcome wal node.disk) node.buffer))
    → (config : Config) (req : Request) → P (node_of (handle codec env config req node))
handle-keeps codec env node P managed flushed =
    handle-ends codec env node (λ o. P (node_of o)) (managed node.wal refl) (managed node.wal refl)
      (λ r wal e. managed wal e)
      (λ rows wal e.
        finish-keeps P rows (flush codec env.now_ms env.write_outcome wal node.disk) node
          (flushed wal e))
