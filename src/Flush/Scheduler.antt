-- ===== src/Flush/Scheduler.antt =====
-- flush/scheduler.rs: the loop that decides when a snapshot is taken.
use iedb_agent.Base.{
  ℕ, suc, ◌-◌, ◌*◌, ◌^◌, ◌≤◌, ◌≡◌, refl, Bool, true, false, ◌||◌, List, Option, none, some, leb,
  if◌then◌else◌, arith,
}
use iedb_agent.Base.Int.{ℤ, pos, negsuc}
use iedb_agent.Base.Text.{Bytes}
use iedb_agent.Config.{Config, snapshot_interval_secs, memory_limit_bytes}
use iedb_agent.Buffer.{Buffer, total_estimated_size}
use iedb_agent.Flush.Parquet.{Writer}
use iedb_agent.Flush.Snapshot.{Site, SnapshotError, SnapshotResult, done, failed, Trip, do_snapshot}

-- The state of the loop: the site, and the time of the last snapshot on a monotonic clock.
pub record Scheduler : Type 0 where
  pub site : Site
  pub last_snapshot : ℕ

-- `secs as u64`
abbrev as_u64 : ℤ → ℕ
as_u64 (pos n) = n
as_u64 (negsuc n) = 2 ^ 64 - suc n

-- `last_snapshot.elapsed() >= snapshot_interval`, in nanoseconds
unfoldable pub should_timed : Config → ℕ → ℕ → Bool
unfolding snapshot_interval_secs
should_timed config last_snapshot now =
    leb (as_u64 (snapshot_interval_secs config) * 1000000000) (now - last_snapshot)

unfoldable pub should_force : ℕ → Config → Buffer → Bool
unfolding memory_limit_bytes total_estimated_size
should_force usize_mod config buffer =
    leb (memory_limit_bytes usize_mod config) (total_estimated_size usize_mod buffer)

unfoldable pub should_snapshot : ℕ → Config → ℕ → Scheduler → Bool
unfolding should_force should_timed
should_snapshot usize_mod config now scheduler =
    should_force usize_mod config scheduler.site.node.buffer
    || should_timed config scheduler.last_snapshot now

-- A success sets the time of the last snapshot, a failure leaves it, and a panic ends the task.
unfoldable pub after_snapshot : ℕ → Option (SnapshotResult ℕ) → Scheduler → Option Scheduler
after_snapshot now none scheduler = none
after_snapshot now (some (done n site)) scheduler =
    some (record { site = site; last_snapshot = now })
after_snapshot now (some (failed e site)) scheduler = some (record scheduler { site = site })

-- One round after the sleep, at the time `now` of the monotonic clock and `now_ns` of the calendar.
unfoldable pub run_round :
    Writer → (ℕ → Bytes) → Config → ℕ → ℕ → ℤ → List Trip → Scheduler → Option Scheduler
unfolding should_snapshot after_snapshot do_snapshot snapshot_interval_secs
run_round w encode_meta config usize_mod now now_ns trips scheduler =
    if should_snapshot usize_mod config now scheduler
    then after_snapshot now
        (do_snapshot w encode_meta config (snapshot_interval_secs config) now_ns trips
          scheduler.site)
        scheduler
    else some scheduler

should_timed_later :
    (config : Config) (last_snapshot now later : ℕ)
    → should_timed config last_snapshot now ≡ true
    → now ≤ later
    → should_timed config last_snapshot later ≡ true
unfolding should_timed
should_timed_later config last_snapshot now later due h = ground (arith, due)

-- If a snapshot that is due by time fails, the round goes on with the site that it left, and at every
-- later time a snapshot is due for that state.
pub run_round_retries :
    (w : Writer) (encode_meta : ℕ → Bytes) (config : Config) (usize_mod now later : ℕ) (now_ns : ℤ)
    (trips : List Trip) (scheduler : Scheduler) (e : SnapshotError) (site : Site)
    → should_timed config scheduler.last_snapshot now ≡ true
    → do_snapshot w encode_meta config (snapshot_interval_secs config) now_ns trips scheduler.site
      ≡ some (failed e site)
    → now ≤ later
    → (after : Scheduler) × (run_round w encode_meta config usize_mod now now_ns trips scheduler
        ≡ some after)
      × (after.site ≡ site)
      × (should_snapshot usize_mod config later after ≡ true)
unfolding run_round should_snapshot after_snapshot
run_round_retries w encode_meta config usize_mod now later now_ns trips scheduler e site due fails
      h =
    (
      record scheduler { site = site },
      rw (due, or_true (should_force usize_mod config scheduler.site.node.buffer), fails) refl,
      refl,
      rw (should_timed_later config scheduler.last_snapshot now later due h)
          (or_true (should_force usize_mod config site.node.buffer)),
    )
  where
    or_true : (b : Bool) → (b || true) ≡ true
    or_true true = refl
    or_true false = refl
