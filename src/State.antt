-- ===== src/State.antt =====
-- crates/owlsentry-daemon/src/state.rs: the recent alerts and the statistics. The lock makes each
-- method one step, so a method is a function of the state. `from_timestamp` is chrono's, which
-- gives the instant at a number of seconds where there is one.
pub mod Windows
pub mod Counts
pub mod Hours
mod Tests
use Prim.Native.Nat.{min, max}
use owl_sentry.Base.{
  ℕ, ◌-◌, ◌%◌, Bool, ◌&&◌, Option, none, some, List, [], ◌∷◌, ◌++◌, if◌then◌else◌, next_u64,
  or_default, length, count, drop, trim_front, ◌==◌, nat_eq, list_eq, pair_eq, lookup, insert,
}
use owl_sentry.Text.{Text}
use owl_sentry.Alert.Types.{severity_str, category_str, DateTime, Alert}
use owl_sentry.Ipc.{HourBucket, Stats}

abbrev pub max_hour_buckets : ℕ
max_hour_buckets = 48

-- `Inner`, with the two fields of `DaemonState` that never change.
pub record DaemonState : Type 0 where
  pub started_at : DateTime
  pub recent_capacity : ℕ
  pub recent : List Alert
  pub total : ℕ
  pub by_severity : List (Text × ℕ)
  pub by_category : List (Text × ℕ)
  pub hourly : List HourBucket

-- `DaemonState::new`, at the instant `now`
unfoldable pub new_state : DateTime → ℕ → DaemonState
new_state now recent_capacity = record {
  started_at = now;
  recent_capacity = max recent_capacity 1;
  recent = [];
  total = 0;
  by_severity = [];
  by_category = [];
  hourly = [];
}

-- `*map.entry(key).or_insert(0) += 1`
unfoldable pub bump : Text → List (Text × ℕ) → List (Text × ℕ)
bump key m = insert key (next_u64 (or_default 0 (lookup key m))) m

abbrev pub same_instant : DateTime → DateTime → Bool
same_instant a b = a.secs == b.secs && a.nanos == b.nanos

-- `back_mut`, read and written through
unfoldable pub back {ℓ} : {A : Type ℓ} → List A → Option A
back [] = none
back (x ∷ []) = some x
back (x ∷ y ∷ xs) = back (y ∷ xs)

unfoldable pub set_back {ℓ} : {A : Type ℓ} → A → List A → List A
set_back v [] = []
set_back v (x ∷ []) = v ∷ []
set_back v (x ∷ y ∷ xs) = x ∷ set_back v (y ∷ xs)

-- The last bucket counts on if it is of the same hour; otherwise a new bucket is pushed, and the
-- oldest beyond `limit` are dropped.
unfoldable pub count_hour : ℕ → DateTime → List HourBucket → List HourBucket
count_hour limit hour hourly =
    let pushed = trim_front limit (hourly ++ (record { hour = hour; count = 1 } ∷ [])) in
    elim (back hourly) [
      | none ↦ pushed
      | some last ↦
          if same_instant last.hour hour
          then set_back (record last { count = next_u64 last.count }) hourly
          else pushed
    ]

module _ (from_timestamp : ℕ → ℕ → Option DateTime) where
  unfoldable pub truncate_to_hour : DateTime → DateTime
  truncate_to_hour ts = or_default ts (from_timestamp (ts.secs - ts.secs % 3600) 0)

  -- `DaemonState::record`
  unfoldable pub record_alert : Alert → DaemonState → DaemonState
  record_alert a s = record s {
    total = next_u64 s.total;
    by_severity = bump (severity_str a.severity) s.by_severity;
    by_category = bump (category_str a.category) s.by_category;
    hourly = count_hour max_hour_buckets (truncate_to_hour a.timestamp) s.hourly;
    recent = trim_front s.recent_capacity (s.recent ++ (a ∷ []));
  }

-- `DaemonState::recent`: the `limit` last alerts, oldest first
unfoldable pub recent_alerts : ℕ → DaemonState → List Alert
recent_alerts limit s = let n = min limit (length s.recent) in drop (length s.recent - n) s.recent

-- `DaemonState::stats`
unfoldable pub stats_of : DaemonState → Stats
stats_of s = record {
  started_at = s.started_at;
  total = s.total;
  by_severity = s.by_severity;
  by_category = s.by_category;
  hourly = s.hourly;
}
