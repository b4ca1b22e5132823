-- ===== src/Gui/Tests.antt =====
-- The theorems of the window at sample inputs.
use owl_sentry.Base.{
  ◌≡◌, refl, true, false, In, get_elem?, none, some, List, [], ◌∷◌, arith, count, nat_eq, list_eq,
  pair_eq,
}
use owl_sentry.Text.{Text, codes, format, to_ascii_lowercase, contains_text}
use owl_sentry.Alert.Types.{
  DateTime, rank, Alert, info, low, medium, high, critical, network, audit, system,
}
use owl_sentry.I18n.{fr}
use owl_sentry.Gui.Client.{recent}
use owl_sentry.Gui.App.{matches_filters, filtered, new_app, selected_alert, App, alerts_tab}
use owl_sentry.Gui.Bars.{filter_bar, FilterInput}
use owl_sentry.Gui.AlertsView.{alerts_view}
use owl_sentry.Gui.Dashboard.{fill_buckets, no_counts, run_frames, FrameInput}
use owl_sentry.Gui.Counts.{in_hour, fill_buckets_lem}
use owl_sentry.Gui.Frames.{InSync, run_frames-InSync}
use owl_sentry.Gui.Clicks.{only, click-selects}
use owl_sentry.Samples.{at_secs, sample_alert}

abbrev log : List Alert
log = sample_alert 1 10 high system ∷ sample_alert 2 20 critical network ∷ []

abbrev shown : App
shown = record {
  alerts = sample_alert 2 20 low network ∷ sample_alert 3 5 info audit ∷ [];
  is_connected = true;
  lang = fr;
  min_severity = medium;
  category_filter = some network;
  search = codes "w";
  selected = none;
  tab = alerts_tab;
  notify_checkbox = true;
  notify_enabled = true;
}

abbrev noon : DateTime
noon = at_secs 1700000000

-- An hour and a half before, and a day before.
abbrev timed : List Alert
timed = sample_alert 4 1699994600 high system ∷ sample_alert 5 1699913600 info audit ∷ []

fill_buckets_lem_example :
    get_elem? (fill_buckets noon timed no_counts) 22 ≡ some (count (in_hour noon 22) timed)
fill_buckets_lem_example = fill_buckets_lem noon timed 22 (omega arith)

abbrev no_filters : FilterInput
no_filters = record {
  picks_severity = some info;
  picks_category = some none;
  types = some (codes "W");
  clicks_clear = false;
}

abbrev a_frame : FrameInput
a_frame = record {
  events = recent log ∷ [];
  now = noon;
  top = record {
    clicks_alerts = false;
    clicks_dashboard = false;
    clicks_language = true;
    clicks_notifications = true;
  };
  filters = no_filters;
  clicks = only 1;
}

abbrev show_id : DateTime → Text
show_id t = codes "12:00"

run_frames-InSync_example :
    InSync (
      run_frames to_ascii_lowercase show_id show_id (λ t. 12) (a_frame ∷ a_frame ∷ []) (new_app fr))
run_frames-InSync_example =
    run_frames-InSync to_ascii_lowercase show_id show_id (λ t. 12) fr (a_frame ∷ a_frame ∷ [])

click-selects_example :
    (b : Alert) × (selected_alert
        (alerts_view show_id show_id to_ascii_lowercase no_filters (only 1) shown).0
      ≡ some b)
    × (b.id ≡ 2)
    × In b (alerts_view show_id show_id to_ascii_lowercase no_filters (only 1) shown).0.alerts
unfolding filtered filter_bar matches_filters rank contains_text to_ascii_lowercase format
click-selects_example =
    click-selects show_id show_id to_ascii_lowercase no_filters 1 (sample_alert 2 20 low network)
      shown refl
