-- ===== src/State/Windows.antt =====
-- The states that a run of `record` reaches, and the window of recent alerts.
use Prim.Native.Nat.{min, max}
use owl_sentry.Base.{
  ℕ, ◌≡◌, refl, ap, ◌∙◌, Option, List, [], ◌∷◌, ◌++◌, append_assoc, append-nil, arith, drop,
  trim_front, take_last, trim_front-eq-take_last, length-trim_front, trim_front_again, drop-drop,
  nat_eq, list_eq, pair_eq,
}
use owl_sentry.Alert.Types.{DateTime, Alert}
use owl_sentry.State.{new_state, record_alert, recent_alerts, DaemonState}

module _ (from_timestamp : ℕ → ℕ → Option DateTime) where
  -- The alerts recorded one after another.
  unfoldable pub record_all : List Alert → DaemonState → DaemonState
  record_all [] s = s
  record_all (a ∷ log) s = record_all log (record_alert from_timestamp a s)

  pub recent_capacity-record_all :
      (log : List Alert) (s : DaemonState) → (record_all log s).recent_capacity ≡ s.recent_capacity
  unfolding record_all record_alert
  recent_capacity-record_all [] s = refl
  recent_capacity-record_all (a ∷ log) s =
      recent_capacity-record_all log (record_alert from_timestamp a s)

  pub recent-record_all :
      (log : List Alert) (s : DaemonState) (h : List Alert)
      → s.recent ≡ trim_front s.recent_capacity h
      → (record_all log s).recent ≡ trim_front s.recent_capacity (h ++ log)
  unfolding record_all record_alert
  recent-record_all [] s h e = rw append-nil e
  recent-record_all (a ∷ log) s h e =
      recent-record_all log (record_alert from_timestamp a s) (h ++ (a ∷ []))
        (rw e (trim_front_again s.recent_capacity h (a ∷ [])))
      ∙ ap (trim_front s.recent_capacity) (append_assoc h (a ∷ []) log)

  -- After any alerts have been recorded in a new state, `recent limit` gives, in the order of
  -- recording, the last ones: as many as asked for, but at most the capacity (at least one).
  pub recent_alerts-record_all :
      (now : DateTime) (capacity limit : ℕ) (log : List Alert)
      → recent_alerts limit (record_all log (new_state now capacity))
        ≡ take_last (min limit (max capacity 1)) log
  unfolding recent_alerts new_state
  recent_alerts-record_all now capacity limit log =
      let s = record_all log (new_state now capacity) in
      let cap = max capacity 1 in
      let e : s.recent ≡ trim_front cap log =
        unfold new_state trim_front in recent-record_all log (new_state now capacity) [] refl in
      rw (e, length-trim_front cap log, trim_front-eq-take_last cap log)
        (drop-drop _ _ log ∙ ap (λ n. drop n log) (omega arith))
