-- ===== src/Gui/Bars.antt =====
-- crates/owlsentry-gui/src/app.rs: `top_bar` and `filter_bar`. What the user does in a frame is an
-- argument.
use owl_sentry.Base.{
  Bool, true, false, not, Option, none, some, List, [], ◌∷◌, ◌++◌, map, if◌then◌else◌, nat_eq,
  list_eq, pair_eq,
}
use owl_sentry.Text.{Text, codes}
use owl_sentry.Alert.Types.{all_severities, all_categories, Severity, Category}
use owl_sentry.I18n.{severity_label, category_label, Lang, fr, en}
use owl_sentry.I18n.Labels.{tr}
use owl_sentry.Gui.App.{clear_filters, App, Tab, alerts_tab, dashboard_tab}
use owl_sentry.Gui.Widgets.{
  from_rgb, Widget, label, button, colored_label, selectable, checkbox, combo_box, text_edit,
}

-- What is clicked in the top bar.
pub record TopInput : Type 0 where
  pub clicks_alerts : Bool
  pub clicks_dashboard : Bool
  pub clicks_language : Bool
  pub clicks_notifications : Bool

abbrev pub is_alerts_tab : Tab → Bool
is_alerts_tab alerts_tab = true
is_alerts_tab dashboard_tab = false

abbrev pub other_language : Lang → Lang
other_language fr = en
other_language en = fr

abbrev pub language_label : Lang → Text
language_label fr = codes "FR"
language_label en = codes "EN"

abbrev pub choose_tab : Bool → Tab → App → App
choose_tab clicked tab app = if clicked then record app { tab = tab } else app

abbrev pub switch_language : Bool → App → App
switch_language clicked app = if clicked then record app { lang = other_language app.lang } else app

-- The box is ticked or cleared, and the flag of the client's thread follows it.
abbrev pub toggle_notifications : Bool → App → App
toggle_notifications clicked app =
    if clicked
    then record app {
      notify_checkbox = not app.notify_checkbox;
      notify_enabled = not app.notify_checkbox;
    }
    else app

unfoldable pub connection_widgets : App → List Widget
unfolding tr
connection_widgets app =
    let color = if app.is_connected then from_rgb 80 200 100 else from_rgb 220 60 60 in
    let text =
      if app.is_connected
      then tr app.lang (codes "connected")
      else tr app.lang (codes "disconnected") in
    colored_label color (codes "●") ∷ label text ∷ []

unfoldable pub top_bar : TopInput → App → App × List Widget
unfolding connection_widgets tr
top_bar i app =
    let app1 = choose_tab i.clicks_alerts alerts_tab app in
    let app2 = choose_tab i.clicks_dashboard dashboard_tab app1 in
    let app3 = switch_language i.clicks_language app2 in
    let app4 = toggle_notifications i.clicks_notifications app3 in
    (
      app4,
      (selectable (is_alerts_tab app.tab) (tr app.lang (codes "alerts"))
            ∷ selectable (not (is_alerts_tab app1.tab)) (tr app1.lang (codes "dashboard"))
            ∷ connection_widgets app2)
          ++ (button (language_label app2.lang)
              ∷ checkbox app3.notify_checkbox (tr app3.lang (codes "notifications"))
              ∷ []),
    )

-- What is picked and typed in the bar of filters, and whether the button to clear them is clicked.
pub record FilterInput : Type 0 where
  pub picks_severity : Option Severity
  pub picks_category : Option (Option Category)
  pub types : Option Text
  pub clicks_clear : Bool

abbrev pub severity_options : Lang → List Text
severity_options lang = map (severity_label lang) all_severities

abbrev pub category_options : Lang → List Text
category_options lang = tr lang (codes "all") ∷ map (category_label lang) all_categories

abbrev pub category_choice : App → Text
category_choice app = elim app.category_filter [
  | none ↦ tr app.lang (codes "all")
  | some c ↦ category_label app.lang c
]

abbrev pub pick_severity : Option Severity → App → App
pick_severity none app = app
pick_severity (some v) app = record app { min_severity = v }

abbrev pub pick_category : Option (Option Category) → App → App
pick_category none app = app
pick_category (some c) app = record app { category_filter = c }

abbrev pub type_search : Option Text → App → App
type_search none app = app
type_search (some t) app = record app { search = t }

unfoldable pub filter_bar : FilterInput → App → App × List Widget
unfolding tr severity_label category_label clear_filters
filter_bar i app =
    let app1 = pick_severity i.picks_severity app in
    let app2 = pick_category i.picks_category app1 in
    let app3 = type_search i.types app2 in
    (
      if i.clicks_clear then clear_filters app3 else app3,
      label (tr app.lang (codes "min_severity"))
          ∷ combo_box (severity_label app.lang app.min_severity) (severity_options app.lang)
          ∷ label (tr app1.lang (codes "category"))
          ∷ combo_box (category_choice app1) (category_options app1.lang)
          ∷ label (tr app2.lang (codes "search"))
          ∷ text_edit app3.search
          ∷ button (tr app3.lang (codes "clear"))
          ∷ [],
    )
