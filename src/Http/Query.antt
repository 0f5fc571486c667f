-- ===== src/Http/Query.antt =====
-- http/query.rs: `QueryHandler::handle`.
pub mod Split
use iedb_agent.Base.{
  ℕ, ◌≡◌, Bool, List, [], ◌∷◌, ◌++◌, Option, none, some, find_by, filter_by, ◌==◌, if◌then◌else◌,
}
use iedb_agent.Base.Int.{ℤ, pos, ◌*ℤ◌, wrap_i64}
use iedb_agent.Base.Text.{Str, codes, str_eq}
use iedb_agent.Config.{parse_i64}
use iedb_agent.Buffer.{Buffer}
use iedb_agent.Buffer.Query.{Json, QueryRow, query}
use iedb_agent.Http.{Request}

abbrev Params : Type 0
Params = List (Str × Str)

abbrev value_of : Option (Str × Str) → Option Str
value_of none = none
value_of (some (_, v)) = some v

-- The closure `get`: the first value of a parameter.
unfoldable pub get_param : Str → Params → Option Str
get_param key params = value_of (find_by (λ p. str_eq p.0 key) params)

abbrev pub in_front : ℕ → Option (Str × Str) → Option (Str × Str)
in_front c none = none
in_front c (some (a, b)) = some (c ∷ a, b)

-- `split_once`
unfoldable pub split_once : ℕ → Str → Option (Str × Str)
split_once at [] = none
split_once at (c ∷ s) =
    let rest = in_front c (split_once at s) in if c == at then some ([], s) else rest

abbrev parsed : Option Str → Option ℤ
unfolding parse_i64
parsed none = none
parsed (some s) = parse_i64 s

-- Microseconds become nanoseconds; the product wraps in a release build.
unfoldable pub to_ns : Option ℤ → Option ℤ
unfolding wrap_i64 ◌*ℤ◌
to_ns none = none
to_ns (some us) = some (wrap_i64 (us *ℤ pos 1000))

abbrev put_filter : Option (Str × Str) → Params → Params
put_filter none filters = filters
put_filter (some f) filters = f ∷ filters

-- All parameters `tag=k=v`, in order; one without a second `=` is left out.
unfoldable pub tag_filters : Params → Params
unfolding split_once
tag_filters [] = []
tag_filters ((k, v) ∷ params) =
    let rest = tag_filters params in
    if str_eq k (codes "tag") then put_filter (split_once b'=' v) rest else rest

abbrev first_key : Params → Option Str
first_key [] = none
first_key ((k, v) ∷ _) = some k

abbrev first_value : Params → Option Str
first_value [] = none
first_value ((k, v) ∷ _) = some v

abbrev db_or_default : Option Str → Str
db_or_default none = codes "default"
db_or_default (some db) = db

abbrev pub query_text : Option Str → Str
query_text none = []
query_text (some q) = q

module _ (J : Json) where
  pub data Response : Type 0 where
    missing_table : Response
    ok_rows : List (QueryRow J) → Response
    panicked : Response

  abbrev pub answer : Option (Option (List (QueryRow J))) → Response
  answer none = panicked
  answer (some none) = ok_rows []
  answer (some (some rows)) = ok_rows rows

  unfoldable pub query_params : Params → Buffer → Option Str → Response
  unfolding get_param to_ns tag_filters query parse_i64
  query_params params buffer none = missing_table
  query_params params buffer (some table) =
      let filters = tag_filters params in
      answer (
        query J buffer (db_or_default (get_param (codes "db") params)) table
          (to_ns (parsed (get_param (codes "start") params)))
          (to_ns (parsed (get_param (codes "end") params))) (first_key filters)
          (first_value filters))

  -- `parse_query` is `form_urlencoded::parse`. The local `_tag_key` of the source is not used.
  unfoldable pub handle : (Str → Params) → Request → Buffer → Response
  unfolding query_params
  handle parse_query req buffer =
      let params = parse_query (query_text req.query) in
      query_params params buffer (get_param (codes "table") params)
