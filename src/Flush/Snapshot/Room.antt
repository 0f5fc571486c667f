-- ===== src/Flush/Snapshot/Room.antt =====
-- flush/scheduler.rs: a whole snapshot, with other tasks at work, and the WAL files that cover the
-- chunks left in memory.
use iedb_agent.Base.{ℕ, ◌+◌, ◌≡◌, refl, List, [], ◌∷◌, Option, none, some, arith}
use iedb_agent.Base.Int.{ℤ}
use iedb_agent.Base.Text.{Str, Bytes}
use iedb_agent.Config.{Config}
use iedb_agent.Wal.Serialize.{Codec}
use iedb_agent.Node.{Node}
use iedb_agent.Node.Covered.{HasRoom}
use iedb_agent.Flush.Parquet.{Writer}
use iedb_agent.Flush.Snapshot.{
  Selection, Site, Trip, with_meta, finish_upload, flush_table, do_snapshot,
}
use iedb_agent.Flush.Snapshot.Cycle.{the_site}
use iedb_agent.Flush.Snapshot.Keeps.{AtEnd, AtEnd-map, flush_table-keeps, do_snapshot-keeps}
use iedb_agent.Flush.Snapshot.Covered.{IsTorn, finish_upload-IsCovered}

module _ (codec : Codec) (read_meta : Bytes → Option ℕ) where
  -- What the other tasks do uses at most so many new files, and an error with the metadata file
  -- leaves it unreadable, if it leaves another one at all.
  pub record IsTripOf (cost : ℕ) (trip : Trip) : Type 0 where
    pub first_cost : ℕ
    pub later_cost : ℕ
    pub total : cost ≡ first_cost + later_cost
    pub keeps_first :
        (k : ℕ) (node : Node)
        → HasRoom codec read_meta (first_cost + k) node
        → HasRoom codec read_meta k (trip.between node)
    pub keeps :
        (k : ℕ) (node : Node)
        → HasRoom codec read_meta (later_cost + k) node
        → HasRoom codec read_meta k (trip.meanwhile node)
    pub torn : IsTorn read_meta trip.meta_error

  -- The trips together use at most so many new files.
  abbrev pub AreTripsOf : ℕ → List Trip → Type 0
  AreTripsOf total [] = Unit
  AreTripsOf total (trip ∷ trips) =
      (cost : ℕ) × (rest : ℕ) × (total ≡ cost + rest) × IsTripOf cost trip × AreTripsOf rest trips

module _ (codec : Codec) (read_meta : Bytes → Option ℕ) (encode_meta : ℕ → Bytes)
    (reads : (n : ℕ) → read_meta (encode_meta n) ≡ some n) (w : Writer) (config : Config) where
  abbrev Room : ℕ → Node → Type 0
  Room = HasRoom codec read_meta

  current_seq-finish_upload :
      (sel : Selection) (meta_error : Option (Str × Option (Option Bytes))) (site : Site)
      → (the_site (finish_upload w encode_meta config sel meta_error site)).node.wal.current_seq
        ≡ site.node.wal.current_seq
  unfolding finish_upload with_meta
  current_seq-finish_upload sel none site = refl
  current_seq-finish_upload sel (some (e, none)) site = refl
  current_seq-finish_upload sel (some (e, some bytes)) site = refl

  finish_upload-HasRoom :
      (k : ℕ) (sel : Selection) (meta_error : Option (Str × Option (Option Bytes))) (site : Site)
      → IsTorn read_meta meta_error
      → Room k site.node
      → Room k (the_site (finish_upload w encode_meta config sel meta_error site)).node
  finish_upload-HasRoom k sel meta_error site torn (room, h) = (
    rw (current_seq-finish_upload sel meta_error site) room,
    finish_upload-IsCovered codec read_meta encode_meta reads w config sel meta_error site torn
        (omega (arith, room)) h,
  )

  flush_table-HasRoom :
      (cost k : ℕ) (sel : Selection) (trip : Trip) (site : Site)
      → IsTripOf codec read_meta cost trip
      → Room (cost + k) site.node
      → Room k (the_site (flush_table w encode_meta config sel trip site)).node
  flush_table-HasRoom cost k sel trip site h room =
      let second =
        h.keeps_first (h.later_cost + k) site.node (omega (arith, room.0, h.total), room.1) in
      let during = h.keeps k (trip.between site.node) second in
      flush_table-keeps w encode_meta config (Room k) sel trip site (omega (arith, room.0), room.1)
        (omega (arith, second.0), second.1) during
        (λ uploaded.
          finish_upload-HasRoom k sel trip.meta_error
            (record site { node = trip.meanwhile (trip.between site.node); uploaded = uploaded })
            h.torn during)

  pub do_snapshot-HasRoom :
      (total k : ℕ) (snapshot_interval_secs now_ns : ℤ) (trips : List Trip) (site : Site)
      → AreTripsOf codec read_meta total trips
      → Room (total + k) site.node
      → AtEnd (Room k) (do_snapshot w encode_meta config snapshot_interval_secs now_ns trips site)
  do_snapshot-HasRoom total k secs now_ns trips site h room =
      let P : List Trip → Node → Type 0 =
        λ rest node. (left : ℕ) × AreTripsOf codec read_meta left rest × Room (left + k) node in
      AtEnd-map (P []) (Room k) (do_snapshot w encode_meta config secs now_ns trips site)
        (λ node (left, trips, room). (omega (arith, room.0), room.1))
        (do_snapshot-keeps w encode_meta config P
          (λ rest node (left, trips, room). (left, tt, room))
          (λ sel trip rest before (left, (cost, after, e, one, others), room). (
            after,
            others,
            flush_table-HasRoom cost (after + k) sel trip before one
                (omega (arith, room.0, e), room.1),
          ))
          secs now_ns trips site (total, h, room))
