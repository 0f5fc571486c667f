-- ===== src/Tests/Data.antt =====
-- The inputs of the tests: a table of temperatures, a node before its first write, and a request.
use iedb_agent.Base.{ℕ, ◌+◌, [], ◌∷◌, Option, none, some}
use iedb_agent.Base.Int.{pos}
use iedb_agent.Base.Text.{Bytes, codes}
use iedb_agent.Config.{Config}
use iedb_agent.Buffer
use iedb_agent.Buffer.Schema.{FieldValue, FieldType}
use iedb_agent.Buffer.Chunk
use iedb_agent.Buffer.Chunk.{Row, Chunk}
use iedb_agent.Buffer.Table.{Table}
use iedb_agent.Buffer.Query.{Json}
use iedb_agent.Wal.{WriteBatch, write, WalContents}
use iedb_agent.Wal.Files.{Disk}
use iedb_agent.Wal.Manager.{WalManager, written}
use iedb_agent.Node.{Node}
use iedb_agent.Flush.Parquet.{Writer, ok}
use iedb_agent.Http.{Method, Request}
use iedb_agent.Http.Write.{ParsedLine, LineValue}
use iedb_agent.Http.Write.Handler.{Surroundings}

abbrev pub first_row : Row
first_row = record {
  time = pos 1500000000;
  tag_values = codes "a" ∷ [];
  field_values = some (FieldValue.i64 (pos 20)) ∷ [];
}

abbrev pub second_row : Row
second_row = record {
  time = pos 1600000000;
  tag_values = codes "b" ∷ [];
  field_values = some (FieldValue.i64 (pos 21)) ∷ [];
}

abbrev pub batch : WriteBatch
batch = record {
  db_name = codes "plant";
  table_name = codes "temp";
  chunk_time = pos 1000000000;
  field_names = codes "v" ∷ [];
  tag_keys = codes "host" ∷ [];
  rows = first_row ∷ second_row ∷ [];
}

abbrev pub contents : WalContents
contents = record { wal_file_number = 1; ops = write batch ∷ []; persist_timestamp_ms = pos 1700 }

abbrev pub empty_disk : Disk
empty_disk = record { wal_dir = []; last_snapshot = none }

-- `last_snapshot.json` as its number alone.
abbrev pub encode_meta : ℕ → Bytes
encode_meta n = n ∷ []

abbrev pub read_meta : Bytes → Option ℕ
read_meta [] = none
read_meta (n ∷ _) = some n

-- The file system after a snapshot of number 3 that left no WAL file.
abbrev pub cleaned_disk : Disk
cleaned_disk = record { wal_dir = []; last_snapshot = some (encode_meta 3) }

abbrev pub first_wal : WalManager
first_wal = record { current_seq = 1; op_count = 0; op_limit = 10; pending_ops = [] }

abbrev pub first_node : Node
first_node = record { buffer = Buffer.new; wal = first_wal; disk = empty_disk }

-- A chunk with the two rows from WAL file 2, and its table in a buffer.
abbrev pub full_chunk : Chunk
full_chunk = record (Chunk.new (pos 1000000000)) {
  rows = first_row ∷ second_row ∷ [];
  tag_index = (codes "host", (codes "a", 0 ∷ []) ∷ (codes "b", 1 ∷ []) ∷ []) ∷ [];
  time_min = pos 1500000000;
  time_max = pos 1600000000;
  min_wal_seq = 2;
  max_wal_seq = 2;
}

abbrev pub full_table : Table
full_table = record {
  name = codes "temp";
  schema = record {
    field_defs = record { name = codes "v"; value_type = FieldType.i64 } ∷ [];
    tag_keys = codes "host" ∷ [];
  };
  chunks = full_chunk ∷ [];
}

abbrev pub full_buffer : Buffer.Buffer
full_buffer = record { databases = (codes "plant", (codes "temp", full_table) ∷ []) ∷ [] }

abbrev pub full_node : Node
full_node = record {
  buffer = full_buffer;
  wal = record { current_seq = 3; op_count = 0; op_limit = 10; pending_ops = [] };
  disk = empty_disk;
}

-- A JSON value as the field's value, or null.
abbrev pub json : Json
json = record { Value = Option FieldValue; json = λ v. some v; null = none }

abbrev pub config : Config
config = record {
  port = 8181;
  max_body_bytes = 1000;
  data_dir = codes "data";
  flush_interval_secs = 10;
  max_write_buffer_ops = 10;
  snapshot_interval = codes "1s";
  backend = codes "http";
  memory_limit = codes "1MB";
  s3 = none;
  iotedgedb_url = codes "http://server";
  iotedgedb_token = none;
  agent_id = codes "agent";
  agent_url = none;
}

abbrev pub line : ParsedLine
line = record {
  measurement = codes "temp";
  tag_set = some ((codes "host", codes "a") ∷ []);
  field_set = (codes "v", LineValue.i64 (pos 20)) ∷ [];
  timestamp = some (pos 1500000000);
}

-- The parser of lines finds one line in every text.
abbrev pub surroundings : Surroundings
surroundings = record {
  parse_query = λ s. [];
  parse_lines = λ s. some line ∷ [];
  usize_mod = 18446744073709551616;
  clock_ns = λ n. pos (1700000000 + n);
  now_ms = pos 1700;
  write_outcome = written;
}

abbrev pub request : Request
request = record {
  method = Method.post;
  path = codes "/write";
  content_length = none;
  query = none;
  body = some (codes "temp,host=a v=20i 1500000000");
}

-- A writer of Parquet files that takes every schema and writes no bytes.
abbrev pub writer : Writer
writer = record { parse_message_type = λ message. none; write = λ message columns. ok [] }
