-- ===== src/Gui/App.antt =====
-- crates/owlsentry-gui/src/app.rs: the alerts that the window holds, the filters, and the counts of
-- the dashboard. `to_lowercase` is that of `str`.
use mathlib.Core.List.{reverse}
use owl_sentry.Base.{
  ℕ, ◌-◌, Bool, true, false, not, ◌&&◌, ◌||◌, Option, none, some, List, [], ◌∷◌, ◌++◌, map, ltb,
  leb, if◌then◌else◌, ◌>>=◌, length, filter, count, drop, nat_eq, ◌==◌, list_eq, pair_eq, contains,
}
use owl_sentry.Text.{Text, codes, format, contains_text, is_empty}
use owl_sentry.Alert.Types.{severity_lt, DateTime, Alert, Severity, info, Category}
use owl_sentry.Alert.Order.{severity_beq, category_beq}
use owl_sentry.I18n.{from_code, Lang}
use owl_sentry.Gui.Client.{GuiEvent, connected, disconnected, alert, recent}

abbrev pub max_alerts_in_memory : ℕ
max_alerts_in_memory = 5000

pub data Tab : Type 0 where
  alerts_tab dashboard_tab : Tab

-- `OwlSentryApp`, but for the receiver, whose events are arguments. `notify_enabled` is the flag
-- that it shares with the client's thread.
pub record App : Type 0 where
  pub alerts : List Alert
  pub is_connected : Bool
  pub lang : Lang
  pub min_severity : Severity
  pub category_filter : Option Category
  pub search : Text
  pub selected : Option ℕ
  pub tab : Tab
  pub notify_checkbox : Bool
  pub notify_enabled : Bool

-- `OwlSentryApp::new`
unfoldable pub new_app : Lang → App
new_app lang = record {
  alerts = [];
  is_connected = false;
  lang = lang;
  min_severity = info;
  category_filter = none;
  search = [];
  selected = none;
  tab = alerts_tab;
  notify_checkbox = true;
  notify_enabled = true;
}

-- The order of `DateTime`
unfoldable pub earlier_or_same : DateTime → DateTime → Bool
earlier_or_same a b = ltb a.secs b.secs || (a.secs == b.secs && leb a.nanos b.nanos)

-- `sort_by_key(|a| a.timestamp)`, a stable sort
unfoldable pub insert_sorted : Alert → List Alert → List Alert
insert_sorted a [] = a ∷ []
insert_sorted a (b ∷ bs) =
    if earlier_or_same a.timestamp b.timestamp then a ∷ b ∷ bs else b ∷ insert_sorted a bs

unfoldable pub sort_by_timestamp : List Alert → List Alert
unfolding insert_sorted
sort_by_timestamp [] = []
sort_by_timestamp (a ∷ log) = insert_sorted a (sort_by_timestamp log)

-- `alerts.drain(..excess)` if there are too many
abbrev pub drain_excess : List Alert → List Alert
drain_excess log =
    if ltb max_alerts_in_memory (length log)
    then drop (length log - max_alerts_in_memory) log
    else log

abbrev pub ids : List Alert → List ℕ
ids = map (λ a. a.id)

-- One turn of the loop of `drain_events`
unfoldable pub on_event : GuiEvent → App → App
on_event (connected language) app = record app { is_connected = true; lang = from_code language }
on_event disconnected app = record app { is_connected = false }
on_event (alert a) app = record app { alerts = drain_excess (app.alerts ++ (a ∷ [])) }
on_event (recent log) app = record app {
  alerts = sort_by_timestamp (filter (λ a. not (contains a.id (ids log))) app.alerts ++ log);
}

unfoldable pub drain_events : List GuiEvent → App → App
drain_events [] app = app
drain_events (e ∷ es) app = drain_events es (on_event e app)

module _ (to_lowercase : Text → Text) where
  -- `matches_filters`
  unfoldable pub matches_filters : App → Alert → Bool
  matches_filters app a =
      not (severity_lt a.severity app.min_severity)
      && (elim app.category_filter [ none ↦ true | some c ↦ category_beq a.category c ])
      && (is_empty app.search
          || contains_text (to_lowercase app.search)
              (to_lowercase (format (a.title ∷ codes " " ∷ a.what ∷ codes " " ∷ a.why ∷ []))))

  -- The list of `alerts_view`, most recent first
  unfoldable pub filtered : App → List Alert
  filtered app = filter (matches_filters app) (reverse app.alerts)

-- The button that clears the filters in `filter_bar`
unfoldable pub clear_filters : App → App
clear_filters app = record app { search = []; category_filter = none; min_severity = info }

-- The alert of the panel of details
unfoldable pub find_by_id : ℕ → List Alert → Option Alert
find_by_id n [] = none
find_by_id n (a ∷ log) = if a.id == n then some a else find_by_id n log

unfoldable pub selected_alert : App → Option Alert
selected_alert app = app.selected >>= λ n. find_by_id n app.alerts

-- The counts of `dashboard_view`
unfoldable pub severity_count : Severity → App → ℕ
severity_count v app = count (λ a. severity_beq a.severity v) app.alerts

unfoldable pub category_count : Category → App → ℕ
category_count k app = count (λ a. category_beq a.category k) app.alerts
