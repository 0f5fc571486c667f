-- ===== src/Flush/Upload/Staging.antt =====
-- flush/http_upload.rs and the retry task of main.rs: the files of the staging directory, with the
-- paths that the names of a database and a table make.
use iedb_agent.Base.{
  ℕ, Bool, true, false, not, ◌&&◌, ◌||◌, List, [], ◌∷◌, ◌++◌, Option, none, some, ◌==◌, is_empty,
  if◌then◌else◌,
}
use iedb_agent.Base.Text.{Str, Bytes, codes, str_eq}
use iedb_agent.Base.Parse.{strip_suffix}
use iedb_agent.Config.{Config, auth_header}
use iedb_agent.Flush.Upload.{PostRequest, Answer, no_answer, answered, is_success, ingest_url}

-- A path as its components, the innermost first; that of the root is "/". No directory below the data
-- directory is a link.
abbrev pub PathParts : Type 0
PathParts = List Str

abbrev in_first : ℕ → List Str → List Str
in_first c [] = (c ∷ []) ∷ []
in_first c (part ∷ parts) = (c ∷ part) ∷ parts

-- What stands between the slashes.
unfoldable pub split_slashes : Str → List Str
split_slashes [] = [] ∷ []
split_slashes (c ∷ s) =
    let rest = split_slashes s in if c == b'/' then [] ∷ rest else in_first c rest

-- The directory above; the root is above itself.
abbrev above : PathParts → PathParts
above [] = codes ".." ∷ []
above (top ∷ rest) =
    if str_eq top (codes "/")
    then top ∷ rest
    else if str_eq top (codes "..")
    then codes ".." ∷ top ∷ rest
    else rest

abbrev pub enter : PathParts → Str → PathParts
enter dir part =
    if is_empty part || str_eq part (codes ".")
    then dir
    else if str_eq part (codes "..")
    then above dir
    else part ∷ dir

unfoldable pub walk : PathParts → List Str → PathParts
unfolding str_eq
walk dir [] = dir
walk dir (part ∷ parts) = walk (enter dir part) parts

abbrev pub is_absolute : Str → Bool
is_absolute [] = false
is_absolute (c ∷ s) = c == b'/'

-- The place that `dir.join(text)` leads to: an absolute text replaces the directory.
unfoldable pub join : PathParts → Str → PathParts
unfolding walk split_slashes
join dir text = walk (if is_absolute text then codes "/" ∷ [] else dir) (split_slashes text)

-- `config.data.dir.join("staging")`
unfoldable pub staging_dir : Config → PathParts
unfolding join
staging_dir config = join (join [] config.data_dir) (codes "staging")

pub record StagedFile : Type 0 where
  pub path : PathParts
  pub bytes : Bytes

unfoldable pub same_path : PathParts → PathParts → Bool
unfolding str_eq
same_path [] [] = true
same_path [] (_ ∷ _) = false
same_path (_ ∷ _) [] = false
same_path (p ∷ ps) (q ∷ qs) = str_eq p q && same_path ps qs

-- `fs::write`, which replaces a file that is there.
unfoldable pub put_file : StagedFile → List StagedFile → List StagedFile
unfolding same_path
put_file f [] = f ∷ []
put_file f (g ∷ gs) =
    let rest = put_file f gs in if same_path g.path f.path then f ∷ gs else g ∷ rest

-- `staging_save` under the time stamp `ts`.
unfoldable pub staging_save : Config → Str → Str → Str → Bytes → List StagedFile → List StagedFile
unfolding put_file join staging_dir
staging_save config db table ts bytes staging =
    put_file
      (record {
        path = (ts ++ codes ".parquet") ∷ join (join (staging_dir config) db) table;
        bytes = bytes;
      })
      staging

unfoldable pub retry_request : (Str → Str) → Config → Str → Str → Bytes → PostRequest
unfolding ingest_url auth_header
retry_request urlencoding config db table bytes = record {
  url = ingest_url urlencoding config.iotedgedb_url db table;
  authorization = auth_header config;
  body = bytes;
}

-- `path.extension()` is "parquet": a name that is ".parquet" has none.
abbrev pub has_stem : Option Str → Bool
has_stem none = false
has_stem (some stem) = not (is_empty stem)

-- The names of the directories in which the scan of the staging directory finds a file: it looks two
-- directories deep, and at Parquet files only.
unfoldable pub found_names : PathParts → PathParts → Option (Str × Str)
unfolding same_path strip_suffix
found_names dir [] = none
found_names dir (name ∷ []) = none
found_names dir (name ∷ table ∷ []) = none
found_names dir (name ∷ table ∷ db ∷ outer) =
    if same_path outer dir && has_stem (strip_suffix (codes ".parquet") name)
    then some (db, table)
    else none

abbrev pub was_accepted : Answer → Bool
was_accepted (no_answer e) = false
was_accepted (answered status body) = is_success status

module _ (urlencoding : Str → Str) (config : Config)
    (server : StagedFile → PostRequest → Answer) where
  unfoldable pub is_sent : StagedFile → Option (Str × Str) → Bool
  unfolding retry_request
  is_sent f none = false
  is_sent f (some (db, table)) =
      was_accepted (server f (retry_request urlencoding config db table f.bytes))

  -- One round of the retry task: a file that it finds and that the server accepts is removed, any other
  -- stays.
  unfoldable pub retry_round : List StagedFile → List StagedFile
  unfolding is_sent found_names staging_dir
  retry_round [] = []
  retry_round (f ∷ fs) =
      let rest = retry_round fs in
      if is_sent f (found_names (staging_dir config) f.path) then rest else f ∷ rest
