-- ===== src/Gui/AlertsView.antt =====
-- crates/owlsentry-gui/src/app.rs: `alerts_view`, with the panel of details and the grid of alerts.
-- The instants are written by chrono, in the local time.
use owl_sentry.Base.{
  ℕ, ◌+◌, Bool, false, Option, none, some, List, [], ◌∷◌, ◌++◌, if◌then◌else◌, nat_eq, ◌==◌,
  list_eq, pair_eq,
}
use owl_sentry.Text.{Text, codes, format}
use owl_sentry.Alert.Types.{DateTime, Alert}
use owl_sentry.I18n.{severity_label, category_label, Lang}
use owl_sentry.I18n.Labels.{tr}
use owl_sentry.Gui.App.{filtered, selected_alert, App}
use owl_sentry.Gui.Widgets.{
  severity_color, Widget, heading, strong, label, monospace, colored_label, selectable, end_row,
}
use owl_sentry.Gui.Bars.{filter_bar, FilterInput}

unfoldable pub metadata_widgets : List (Text × Text) → List Widget
metadata_widgets [] = []
metadata_widgets ((k, v) ∷ rest) =
    monospace (format (k ∷ codes " = " ∷ v ∷ [])) ∷ metadata_widgets rest

module _ (show_date_time show_time : DateTime → Text) where
  unfoldable pub details_of : Lang → Alert → List Widget
  unfolding metadata_widgets tr severity_label category_label severity_color
  details_of lang a =
      (colored_label (severity_color a.severity) (
          format
            (severity_label lang a.severity ∷ codes " — " ∷ category_label lang a.category ∷ []))
        ∷ label (show_date_time a.timestamp)
        ∷ strong (tr lang (codes "what"))
        ∷ label a.what
        ∷ strong (tr lang (codes "why"))
        ∷ label a.why
        ∷ strong (tr lang (codes "how"))
        ∷ label a.how
        ∷ [])
      ++ (elim a.metadata [
        | [] ↦ []
        | kv ∷ rest ↦ strong (tr lang (codes "metadata")) ∷ metadata_widgets a.metadata
      ])

  unfoldable pub details : Lang → Option Alert → List Widget
  unfolding details_of
  details lang selected = heading (tr lang (codes "details")) ∷ (elim selected [
    | none ↦ label (tr lang (codes "no_alert_selected")) ∷ []
    | some a ↦ details_of lang a
  ])

  abbrev is_selected : Option ℕ → ℕ → Bool
  is_selected none n = false
  is_selected (some k) n = k == n

  -- The rows of the grid from the `n`th on; `clicks` says which rows are clicked. A click on a row
  -- selects its alert.
  unfoldable pub rows : (ℕ → Bool) → ℕ → List Alert → App → App × List Widget
  rows clicks n [] app = (app, [])
  rows clicks n (a ∷ log) app =
      let next = if clicks n then record app { selected = some a.id } else app in
      let r = rows clicks (n + 1) log next in
      (
        r.0,
        label (show_time a.timestamp)
            ∷ colored_label (severity_color a.severity) (severity_label app.lang a.severity)
            ∷ label (category_label app.lang a.category)
            ∷ selectable (is_selected app.selected a.id) a.title
            ∷ end_row
            ∷ r.1,
      )

  unfoldable pub grid_header : Lang → List Widget
  unfolding tr
  grid_header lang =
      strong (tr lang (codes "time"))
      ∷ strong (tr lang (codes "severity"))
      ∷ strong (tr lang (codes "category"))
      ∷ strong (tr lang (codes "title"))
      ∷ end_row
      ∷ []

  -- The list and the selected alert are taken behind the bar of filters and before the rows are
  -- drawn.
  unfoldable pub alerts_view :
      (to_lowercase : Text → Text) (input : FilterInput) (clicks : ℕ → Bool)
      → App
      → App × List Widget
  unfolding filter_bar details rows grid_header
  alerts_view to_lowercase input clicks app =
      let bar = filter_bar input app in
      let shown = filtered to_lowercase bar.0 in
      let grid = rows clicks 0 shown bar.0 in
      (
        grid.0,
        bar.1 ++ (details bar.0.lang (selected_alert bar.0) ++ (grid_header bar.0.lang ++ grid.1)),
      )
