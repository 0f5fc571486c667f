-- ===== src/Lib.antt =====
-- iedb-agent: an agent at the edge that takes time series by HTTP, keeps them in memory behind a
-- write-ahead log, answers queries, and uploads old data as Parquet files.
--
-- The parts, and the files that model them:
--   Base            lists, integers, text, dictionaries and number parsing that the parts share.
--   Buffer          buffer/mod.rs: databases and tables. Buffer/Schema, Buffer/Chunk and Buffer/Table
--                   are buffer/chunk.rs (FieldValue, TableSchema, Row, Chunk, Table); Buffer/Query is
--                   buffer/query.rs. Buffer/Tags says what a tag index promises.
--   Wal             wal/mod.rs. Wal/Apply is apply_write_batch, Wal/Serialize is wal/serialize.rs,
--                   Wal/Files the file names and directory scans of wal/wal_core.rs, Wal/Manager its
--                   WalManager. Wal/Contents views the buffer as a log of rows.
--   Config          config.rs.
--   Http            http/write.rs (Http/Write, its batches and its handler) and http/query.rs;
--                   Http/Answers has the statuses and texts of both.
--   Flush           flush/parquet.rs (Flush/Parquet), flush/http_upload.rs and flush/s3.rs
--                   (Flush/Upload), the staged files of flush/http_upload.rs and the retry task of
--                   main.rs (Flush/Upload/Staging), and flush/scheduler.rs: do_snapshot
--                   (Flush/Snapshot) and run (Flush/Scheduler).
--   Agent           agent/mod.rs: the changes that heartbeats report; Agent/Requests the requests.
--   Node            main.rs: what its tasks share (the buffer, the WAL manager, the disk), the
--                   start-up and the background flush. Node/Log is the view of the WAL files as lists
--                   of rows, Node/Numbers takes them number by number, Node/Covered is the relation of
--                   the chunks to these files.
--   Server          main.rs: the routes, and runs as a step relation. Server/Actions is the service of
--                   requests and runs with snapshots, Server/Locks the two mutexes of the tasks.
--   Tests           runs at concrete inputs. All paths are below the folder src of the repository.
--
-- How state is modelled. A method that changes its object is a function from the old state to the
-- new one, with its result; an object reached through a mutable reference is changed by a function
-- that the caller passes (get_or_create_table, get_table_mut). Files are a Disk: the WAL directory
-- as a dictionary from names to bytes, and the bytes of the last snapshot's metadata. What the
-- surroundings decide (clock, answers of servers, errors of the file system, what other tasks do
-- during an upload) are inputs, so that the theorems hold for every choice of them. A panic is
-- `none`, or its own outcome in the write handler.
--
-- Tasks. A request, a round of the background flush, and the parts of a round of the snapshot (the
-- cloning of the chunks, that of the table, what follows the answer to the upload) are each one step
-- in the runs of Server/Actions, in any order. In the code a flush and
-- the application of its operations hold the mutexes one after the other; Flush/Snapshot/Early is
-- what can come between, and Server/Locks has each use of a mutex as a step.
--
-- Representations. A String is the list of its code points and a byte string a list of numbers. An
-- i64 is an integer; its operations wrap around as in a release build, or saturate, where the code
-- can overflow; a u64 or usize is a native number with its remainder written out. An f64 is its bits,
-- since no code computes with one. A HashMap is an association list in the order of insertion and a
-- BTreeMap one in ascending order; Rust leaves the order of a HashMap open, and what is stated about
-- iteration holds of every list. binary_search_by is given by what it is documented to return on a
-- sorted vector. No loop needs fuel: all are structural on a list.
-- A path is its components; no directory below the data directory is a link.
-- Numbers are printed with at most twenty digits, which a u64 does not exceed.
--
-- Parameters, with what is asked of them: bitcode and crc32fast (Codec; IsCodec asks for the round
-- trip and a 32-bit hash), serde_json for the metadata, the line protocol and query-string parsers
-- (Surroundings), the Parquet writer (Writer), chrono's rendering (Rendered), JSON values (Json).
--
-- Not modelled: the TOML reader, the AWS signature, the client of reqwest, logging, sockets and task
-- spawning, which are calls of other crates; errors of directory listings and of removals.
pub mod Base
pub mod Buffer
pub mod Wal
pub mod Config
pub mod Node
pub mod Http
pub mod Flush
pub mod Server
pub mod Agent
pub mod Tests
