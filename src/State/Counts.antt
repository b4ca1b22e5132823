-- ===== src/State/Counts.antt =====
-- The totals of the statistics against the alerts recorded. A counter is a `u64`, so it stands for
-- the number of alerts up to multiples of 2^64.
use owl_sentry.Base.{
  ℕ, ◌+◌, ◌%◌, ◌≡◌, ap, ◌∙◌, inl, inr, Option, List, [], ◌∷◌, arith, if◌then◌else◌, Bool-cases,
  u64_mod, next_u64, or_default, length, count, nat_eq, list_beq_iff, list_eq, pair_eq, lookup,
  lookup-insert,
}
use owl_sentry.Text.{Text, text_beq}
use owl_sentry.Alert.Types.{severity_str, category_str, DateTime, Alert, Severity, Category}
use owl_sentry.Alert.Order.{severity_beq, category_beq, severity_str-beq, category_str-beq}
use owl_sentry.State.{new_state, bump, record_alert, stats_of, DaemonState}
use owl_sentry.State.Windows.{record_all}

-- The counter under a key; a missing key counts nothing.
abbrev pub counter : Text → List (Text × ℕ) → ℕ
counter key m = or_default 0 (lookup key m)

counter-bump :
    (j k : Text) (m : List (Text × ℕ))
    → counter j (bump k m) ≡ (if text_beq j k then next_u64 (counter j m) else counter j m)
unfolding bump
counter-bump j k m = elim (Bool-cases (text_beq j k)) [
  | inl e ↦
      let same : j ≡ k = (list_beq_iff j k).0 e in
      rw (lookup-insert k j (next_u64 (counter k m)) m, e, same)
  | inr e ↦ rw (lookup-insert k j (next_u64 (counter k m)) m, e)
]

module _ (from_timestamp : ℕ → ℕ → Option DateTime) where
  total-record_all :
      (log : List Alert) (s : DaemonState) (n : ℕ)
      → s.total ≡ n % u64_mod
      → (record_all from_timestamp log s).total ≡ (n + length log) % u64_mod
  unfolding record_all record_alert
  total-record_all [] s n e = omega arith
  total-record_all (a ∷ log) s n e =
      total-record_all log (record_alert from_timestamp a s) (n + 1) (omega arith)
      ∙ ap (λ k. k % u64_mod) (omega arith)

  by_severity-record_all :
      (v : Severity) (log : List Alert) (s : DaemonState) (n : ℕ)
      → counter (severity_str v) s.by_severity ≡ n % u64_mod
      → counter (severity_str v) (record_all from_timestamp log s).by_severity
        ≡ (n + count (λ a. severity_beq v a.severity) log) % u64_mod
  unfolding record_all record_alert
  by_severity-record_all v [] s n e = omega arith
  by_severity-record_all v (a ∷ log) s n e =
      let step = counter-bump (severity_str v) (severity_str a.severity) s.by_severity in
      let rest = by_severity-record_all v log (record_alert from_timestamp a s) in
      elim (Bool-cases (severity_beq v a.severity)) [
        | inl same ↦ rw same (
            rest (n + 1) (rw (step, severity_str-beq v a.severity, same) (omega arith))
            ∙ ap (λ k. k % u64_mod) (omega arith))
        | inr other ↦ rw other (rest n (rw (step, severity_str-beq v a.severity, other) e))
      ]

  by_category-record_all :
      (v : Category) (log : List Alert) (s : DaemonState) (n : ℕ)
      → counter (category_str v) s.by_category ≡ n % u64_mod
      → counter (category_str v) (record_all from_timestamp log s).by_category
        ≡ (n + count (λ a. category_beq v a.category) log) % u64_mod
  unfolding record_all record_alert
  by_category-record_all v [] s n e = omega arith
  by_category-record_all v (a ∷ log) s n e =
      let step = counter-bump (category_str v) (category_str a.category) s.by_category in
      let rest = by_category-record_all v log (record_alert from_timestamp a s) in
      elim (Bool-cases (category_beq v a.category)) [
        | inl same ↦ rw same (
            rest (n + 1) (rw (step, category_str-beq v a.category, same) (omega arith))
            ∙ ap (λ k. k % u64_mod) (omega arith))
        | inr other ↦ rw other (rest n (rw (step, category_str-beq v a.category, other) e))
      ]

  -- After any alerts have been recorded in a new state, the total is their number, the counter of
  -- each severity is the number of alerts of that severity, and the counter of each category the
  -- number of that category, all modulo 2^64.
  pub stats-record_all :
      (now : DateTime) (capacity : ℕ) (log : List Alert) (v : Severity) (k : Category)
      → let st = stats_of (record_all from_timestamp log (new_state now capacity)) in
        (st.total ≡ length log % u64_mod)
        × (counter (severity_str v) st.by_severity
            ≡ count (λ a. severity_beq v a.severity) log % u64_mod)
        × (counter (category_str k) st.by_category
            ≡ count (λ a. category_beq k a.category) log % u64_mod)
  unfolding stats_of new_state lookup
  stats-record_all now capacity log v k = (
    omega (arith, total-record_all log (new_state now capacity) 0 (omega arith)),
    omega (arith, by_severity-record_all v log (new_state now capacity) 0 (omega arith)),
    omega (arith, by_category-record_all k log (new_state now capacity) 0 (omega arith)),
  )
