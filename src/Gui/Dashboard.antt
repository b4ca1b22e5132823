-- ===== src/Gui/Dashboard.antt =====
-- crates/owlsentry-gui/src/app.rs: `dashboard_view` with its histogram, and `update`, one frame of the
-- window. Instants are compared in nanoseconds; the hour of an instant is that of the local time.
use Prim.Native.Nat.{min, max}
use mathlib.Core.List.{reverse}
use owl_sentry.Base.{
  ℕ, zero, suc, ◌+◌, ◌-◌, ◌*◌, ◌/◌, Bool, ◌&&◌, List, [], ◌∷◌, ◌++◌, map, ltb, leb, if◌then◌else◌,
  length, replicate, nat_eq, ◌==◌, list_eq, pair_eq,
}
use owl_sentry.Text.{Text, codes, format}
use owl_sentry.Text.Numbers.{int_eq, show_nat}
use owl_sentry.Alert.Types.{all_severities, all_categories, DateTime, Alert}
use owl_sentry.I18n.{severity_label, category_label}
use owl_sentry.I18n.Labels.{tr}
use owl_sentry.Gui.Client.{GuiEvent}
use owl_sentry.Gui.App.{
  drain_events, severity_count, category_count, App, Tab, alerts_tab, dashboard_tab,
}
use owl_sentry.Gui.Widgets.{
  severity_color, Widget, heading, strong, label, colored_label, bar, hour_mark,
}
use owl_sentry.Gui.Bars.{top_bar, TopInput, FilterInput}
use owl_sentry.Gui.AlertsView.{alerts_view}

abbrev pub nanoseconds : DateTime → ℕ
nanoseconds t = t.secs * 1000000000 + t.nanos

abbrev pub hour_nanoseconds : ℕ
hour_nanoseconds = 3600000000000

-- Not in the future, and less than 24 hours old
abbrev pub is_of_day : DateTime → Alert → Bool
is_of_day now a =
    leb (nanoseconds a.timestamp) (nanoseconds now)
    && ltb (nanoseconds now - nanoseconds a.timestamp) (24 * hour_nanoseconds)

-- `23 - (age.num_hours().clamp(0, 23) as usize)`
abbrev pub hour_index : DateTime → Alert → ℕ
hour_index now a = 23 - min ((nanoseconds now - nanoseconds a.timestamp) / hour_nanoseconds) 23

abbrev pub no_counts : List ℕ
no_counts = replicate 24 0

-- `buckets[i] += 1`
unfoldable pub add_at : ℕ → List ℕ → List ℕ
add_at i [] = []
add_at zero (c ∷ cs) = (c + 1) ∷ cs
add_at (suc i) (c ∷ cs) = c ∷ add_at i cs

unfoldable pub fill_buckets : DateTime → List Alert → List ℕ → List ℕ
unfolding add_at
fill_buckets now [] buckets = buckets
fill_buckets now (a ∷ log) buckets =
    fill_buckets now log (if is_of_day now a then add_at (hour_index now a) buckets else buckets)

unfoldable pub maximum : List ℕ → ℕ
maximum [] = 0
maximum (c ∷ cs) = max c (maximum cs)

-- The bars from the `i`th hour on, none for an hour without alerts
unfoldable pub bars : ℕ → ℕ → List ℕ → List Widget
bars largest i [] = []
bars largest i (c ∷ cs) =
    if c == 0 then bars largest (i + 1) cs else bar i c largest ∷ bars largest (i + 1) cs

module _ (local_hour : ℕ → ℕ) where
  -- A mark for every fourth hour; `local_hour` reads a number of nanoseconds behind 1970.
  abbrev pub hour_marks : DateTime → List Widget
  hour_marks now =
      map (λ i. hour_mark i (local_hour (nanoseconds now - (23 - i) * hour_nanoseconds)))
        (0 ∷ 4 ∷ 8 ∷ 12 ∷ 16 ∷ 20 ∷ [])

  unfoldable pub hourly_histogram : DateTime → App → List Widget
  unfolding fill_buckets maximum bars
  hourly_histogram now app =
      let buckets = fill_buckets now app.alerts no_counts in
      bars (max (maximum buckets) 1) 0 buckets ++ hour_marks now

  abbrev pub counted : Text → ℕ → Text
  counted name n = format (name ∷ codes ": " ∷ show_nat n ∷ [])

  unfoldable pub severity_rows : App → List Widget
  unfolding severity_label severity_count severity_color
  severity_rows app =
      map
        (λ v.
          colored_label (severity_color v)
            (counted (severity_label app.lang v) (severity_count v app)))
        (reverse all_severities)

  unfoldable pub category_rows : App → List Widget
  unfolding category_label category_count
  category_rows app =
      map (λ k. label (counted (category_label app.lang k) (category_count k app))) all_categories

  unfoldable pub dashboard_view : DateTime → App → List Widget
  unfolding severity_rows category_rows hourly_histogram tr
  dashboard_view now app =
      heading (counted (tr app.lang (codes "total_alerts")) (length app.alerts))
      ∷ strong (tr app.lang (codes "by_severity"))
      ∷ (severity_rows app
          ++ (strong (tr app.lang (codes "by_category"))
              ∷ (category_rows app
                  ++ (strong (tr app.lang (codes "alerts_last_24h")) ∷ hourly_histogram now app))))

-- What comes from outside in a frame: the events of the client's thread, the time, and what the user
-- does.
pub record FrameInput : Type 0 where
  pub events : List GuiEvent
  pub now : DateTime
  pub top : TopInput
  pub filters : FilterInput
  pub clicks : ℕ → Bool

module _ (to_lowercase : Text → Text) (show_date_time show_time : DateTime → Text)
    (local_hour : ℕ → ℕ) where
  unfoldable pub central_panel : FrameInput → Tab → App → App × List Widget
  unfolding alerts_view dashboard_view
  central_panel i alerts_tab app =
      alerts_view show_date_time show_time to_lowercase i.filters i.clicks app
  central_panel i dashboard_tab app = (app, dashboard_view local_hour i.now app)

  -- `update`
  unfoldable pub update : FrameInput → App → App × List Widget
  unfolding drain_events top_bar central_panel
  update i app =
      let bar = top_bar i.top (drain_events i.events app) in
      let panel = central_panel i bar.0.tab bar.0 in (panel.0, bar.1 ++ panel.1)

  -- The states of the window, frame by frame
  unfoldable pub run_frames : List FrameInput → App → App
  unfolding update
  run_frames [] app = app
  run_frames (i ∷ is) app = run_frames is (update i app).0
