-- ===== src/Flush/Upload/Retry.antt =====
-- flush/http_upload.rs and the retry task of main.rs: what becomes of a staged file.
use iedb_agent.Base.{ℕ, ◌≢◌, [], ◌∷◌, ◌++◌, All}
use iedb_agent.Base.Text.{Str, Bytes, codes}
use iedb_agent.Config.{Config}
use iedb_agent.Flush.Upload.{PostRequest, Answer}
use iedb_agent.Flush.Upload.Staging.{StagedFile, staging_dir}

-- The name of a directory right below another.
pub record IsPlain (s : Str) : Type 0 where
  pub filled : s ≢ []
  pub not_here : s ≢ codes "."
  pub not_above : s ≢ codes ".."
  pub no_slash : All (λ (c : ℕ). c ≢ b'/') s

module _ (urlencoding : Str → Str) (config : Config)
    (server : StagedFile → PostRequest → Answer) where
  module _ (db table ts : Str) (bytes : Bytes) where
    abbrev pub staged_file : StagedFile
    staged_file = record {
      path = (ts ++ codes ".parquet") ∷ table ∷ db ∷ staging_dir config;
      bytes = bytes;
    }
