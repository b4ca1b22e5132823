-- ===== src/State/Tests.antt =====
-- Tests of the state, and its theorems at sample inputs.
use Prim.Native.Nat.{min, max}
use owl_sentry.Base.{
  ◌%◌, ◌≡◌, refl, u64_mod, length, count, trim_front, take_last, nat_eq, list_eq, pair_eq,
}
use owl_sentry.Alert.Types.{severity_str, category_str, high, system}
use owl_sentry.Alert.Order.{severity_beq, category_beq}
use owl_sentry.State.{
  max_hour_buckets, new_state, record_alert, recent_alerts, stats_of, DaemonState,
}
use owl_sentry.State.Windows.{record_all, recent_alerts-record_all}
use owl_sentry.State.Counts.{counter, stats-record_all}
use owl_sentry.State.Hours.{group_hours, hours_of, hourly-group_hours}
use owl_sentry.Ipc.{new_stats}
use owl_sentry.Samples.{utc, at_secs, three_alerts}

-- The unit test `record_and_stats`
abbrev after_three : DaemonState
after_three = record_all utc three_alerts (new_state (at_secs 0) 2)

recorded : (after_three.total ≡ 3) × (length (recent_alerts 10 after_three) ≡ 2)
unfolding record_all record_alert new_state recent_alerts trim_front
recorded = (refl, refl)

recent_alerts-record_all_example :
    recent_alerts 10 (record_all utc three_alerts (new_state (at_secs 0) 2))
    ≡ take_last (min 10 (max 2 1)) three_alerts
recent_alerts-record_all_example = recent_alerts-record_all utc (at_secs 0) 2 10 three_alerts

stats-record_all_example :
    ((stats_of after_three).total ≡ length three_alerts % u64_mod)
    × (counter (severity_str high) (stats_of after_three).by_severity
        ≡ count (λ a. severity_beq high a.severity) three_alerts % u64_mod)
    × (counter (category_str system) (stats_of after_three).by_category
        ≡ count (λ a. category_beq system a.category) three_alerts % u64_mod)
stats-record_all_example = stats-record_all utc (at_secs 0) 2 three_alerts high system

hourly-group_hours_example :
    (stats_of after_three).hourly
    ≡ take_last max_hour_buckets (group_hours (hours_of utc three_alerts))
hourly-group_hours_example = hourly-group_hours utc (at_secs 0) 2 three_alerts

-- A daemon that has recorded nothing shows the statistics of `Stats::new`.
fresh_stats : stats_of (new_state (at_secs 0) 2) ≡ new_stats (at_secs 0)
unfolding stats_of new_state new_stats
fresh_stats = refl
