-- ===== src/Gui/Clicks.antt =====
-- What a click on a row of the list selects, and what the panel of details then shows.
use mathlib.Core.List.{reverse, reverse-cons}
use owl_sentry.Base.{
  ℕ, zero, suc, ◌+◌, ◌<◌, ◌≡◌, refl, sym, ap, inl, inr, Bool, true, false, some, List, [], ◌∷◌,
  arith, nat_beq_iff, Bool-cases, filter, get_elem?, In, In-append_cases, nat_eq, ◌==◌, list_eq,
  pair_eq,
}
use owl_sentry.Text.{Text}
use owl_sentry.Alert.Types.{DateTime, Alert}
use owl_sentry.Gui.App.{matches_filters, filtered, find_by_id, selected_alert, App}
use owl_sentry.Gui.Bars.{filter_bar, FilterInput}
use owl_sentry.Gui.AlertsView.{rows, alerts_view}

abbrev pub only : ℕ → ℕ → Bool
only i k = k == i

-- One row of the grid is clicked: the alert that it shows is selected.
module _ (show_date_time show_time : DateTime → Text) where
  rows_unclicked :
      (i n : ℕ) (log : List Alert) (app : App)
      → i < n
      → (rows show_date_time show_time (only i) n log app).0 ≡ app
  unfolding rows
  rows_unclicked i n [] app h = refl
  rows_unclicked i n (a ∷ log) app h =
      let e : (n == i) ≡ false = ground arith in
      rw e (rows_unclicked i (n + 1) log app (omega arith))

  rows_clicked :
      (j n i : ℕ) (log : List Alert) (a : Alert) (app : App)
      → i ≡ n + j
      → get_elem? log j ≡ some a
      → (rows show_date_time show_time (only i) n log app).0 ≡ record app { selected = some a.id }
  unfolding rows
  rows_clicked j n i [] a app e h = absurd (ground arith)
  rows_clicked zero n i (b ∷ log) a app e h =
      let same : b ≡ a = ground arith in
      let hit : (n == i) ≡ true = ground arith in
      rw (hit, same)
        (rows_unclicked i (n + 1) log (record app { selected = some a.id }) (omega arith))
  rows_clicked (suc j) n i (b ∷ log) a app e h =
      let miss : (n == i) ≡ false = ground arith in
      rw miss (rows_clicked j (n + 1) i log a app (omega arith) h)

In-get_elem? : (log : List Alert) (i : ℕ) (a : Alert) → get_elem? log i ≡ some a → In a log
In-get_elem? [] i a h = absurd (ground arith)
In-get_elem? (b ∷ log) zero a h = inl (ground arith)
In-get_elem? (b ∷ log) (suc i) a h = inr (In-get_elem? log i a h)

In-filter : (p : Alert → Bool) (a : Alert) (log : List Alert) → In a (filter p log) → In a log
In-filter p a [] m = m
In-filter p a (b ∷ log) m = elim (Bool-cases (p b)) [
  | inl e ↦ in_rest b log (In-filter p a log) (rw e at m)
  | inr e ↦ inr (In-filter p a log (rw e at m))
]
  where
    in_rest :
        (b : Alert) (log : List Alert)
        → (In a (filter p log) → In a log)
        → In a (b ∷ filter p log)
        → In a (b ∷ log)
    in_rest b log f (inl e) = inl e
    in_rest b log f (inr m) = inr (f m)

In-reverse : (a : Alert) (log : List Alert) → In a (reverse log) → In a log
In-reverse a [] m = m
In-reverse a (b ∷ log) m = elim (In-append_cases a (reverse log) (b ∷ []) (rw reverse-cons at m)) [
  | inl k ↦ inr (In-reverse a log k)
  | inr k ↦ elim k [ inl e ↦ inl e | inr none_left ↦ absurd none_left ]
]

find_by_id-In :
    (a : Alert) (log : List Alert)
    → In a log
    → (b : Alert) × (find_by_id a.id log ≡ some b) × (b.id ≡ a.id) × In b log
unfolding find_by_id
find_by_id-In a [] m = absurd m
find_by_id-In a (b ∷ log) (inl e) = (b, ground arith, ap (λ (c : Alert). c.id) (sym e), inl refl)
find_by_id-In a (b ∷ log) (inr m) = elim (Bool-cases (b.id == a.id)) [
  | inl e ↦ (b, rw (find_by_id, e) refl, (nat_beq_iff b.id a.id).0 e, inl refl)
  | inr e ↦ let (c, f, same, k) = find_by_id-In a log m in (c, rw (find_by_id, e) f, same, inr k)
]

-- A click on the row of an alert selects it: behind the frame, the panel of details has an alert of
-- the window with its number, which is the alert itself where no other has this number.
pub click-selects :
    (show_date_time show_time : DateTime → Text) (to_lowercase : Text → Text) (input : FilterInput)
    (i : ℕ) (a : Alert) (app : App)
    → get_elem? (filtered to_lowercase (filter_bar input app).0) i ≡ some a
    → let after = (alerts_view show_date_time show_time to_lowercase input (only i) app).0 in
      (b : Alert) × (selected_alert after ≡ some b) × (b.id ≡ a.id) × In b after.alerts
unfolding alerts_view selected_alert filtered
click-selects show_date_time show_time to_lowercase input i a app h =
    let bar = (filter_bar input app).0 in
    let e =
      rows_clicked show_date_time show_time i 0 i (filtered to_lowercase bar) a bar (omega arith)
        h in
    let m = In-reverse a bar.alerts (
      In-filter (matches_filters to_lowercase bar) a (reverse bar.alerts)
        (In-get_elem? (filtered to_lowercase bar) i a h)) in
    let (b, f, same, k) = find_by_id-In a bar.alerts m in (b, rw e f, same, rw e k)
