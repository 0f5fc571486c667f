-- ===== src/Config/Defaults.antt =====
-- config.rs: the defaults of the configuration, and `from_file`.
use iedb_agent.Base.{ℕ, ◌*◌, Option, none, some, ◌≡◌, refl}
use iedb_agent.Base.Int.{pos}
use iedb_agent.Base.Text.{Str, codes}
use iedb_agent.Config.{
  Config, S3Config, snapshot_interval_secs, memory_limit_bytes, parse_duration, parse_bytes,
}

-- What the TOML reader finds: `none` where a field with a default is not given. A section or another
-- field that is missing is an error of the reader.
pub record RawConfig : Type 0 where
  pub port : Option ℕ
  pub max_body_bytes : Option ℕ
  pub data_dir : Option Str
  pub flush_interval_secs : Option ℕ
  pub max_write_buffer_ops : Option ℕ
  pub snapshot_interval : Option Str
  pub backend : Option Str
  pub memory_limit : Option Str
  pub s3 : Option S3Config
  pub iotedgedb_url : Str
  pub iotedgedb_token : Option Str
  pub agent_id : Str
  pub agent_url : Option Str

abbrev or_default {ℓ} : {A : Type ℓ} → Option A → A → A
or_default none d = d
or_default (some a) d = a

unfoldable pub with_defaults : RawConfig → Config
with_defaults raw = record {
  port = or_default raw.port 8080;
  max_body_bytes = or_default raw.max_body_bytes (10 * 1024 * 1024);
  data_dir = or_default raw.data_dir (codes "/var/lib/iedb-agent");
  flush_interval_secs = or_default raw.flush_interval_secs 1;
  max_write_buffer_ops = or_default raw.max_write_buffer_ops 100000;
  snapshot_interval = or_default raw.snapshot_interval (codes "10m");
  backend = or_default raw.backend (codes "http");
  memory_limit = or_default raw.memory_limit (codes "512MB");
  s3 = raw.s3;
  iotedgedb_url = raw.iotedgedb_url;
  iotedgedb_token = raw.iotedgedb_token;
  agent_id = raw.agent_id;
  agent_url = raw.agent_url;
}

-- The content of the file, if it can be read, goes through the reader of TOML.
unfoldable pub from_file : (Str → Option RawConfig) → Option Str → Option Config
unfolding with_defaults
from_file read_toml none = none
from_file read_toml (some content) = elim (read_toml content) [
  | none ↦ none
  | some raw ↦ some (with_defaults raw)
]

-- The defaults of the interval and of the limit are texts that the parsers take.
default_snapshot_interval :
    (raw : RawConfig)
    → raw.snapshot_interval ≡ none
    → snapshot_interval_secs (with_defaults raw) ≡ pos 600
unfolding with_defaults snapshot_interval_secs parse_duration
default_snapshot_interval raw e = rw e refl

default_memory_limit :
    (raw : RawConfig)
    → raw.memory_limit ≡ none
    → memory_limit_bytes 18446744073709551616 (with_defaults raw) ≡ 512 * 1024 * 1024
unfolding with_defaults memory_limit_bytes parse_bytes
default_memory_limit raw e = rw e refl
