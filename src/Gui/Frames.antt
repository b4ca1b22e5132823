-- ===== src/Gui/Frames.antt =====
-- What the window keeps from frame to frame.
use owl_sentry.Base.{
  ℕ, ◌+◌, ◌≡◌, refl, inl, inr, Bool, some, List, [], ◌∷◌, arith, Bool-cases, nat_eq, list_eq,
  pair_eq,
}
use owl_sentry.Text.{Text}
use owl_sentry.Alert.Types.{DateTime, Alert}
use owl_sentry.I18n.{Lang}
use owl_sentry.Gui.Client.{GuiEvent, connected, disconnected, alert, recent}
use owl_sentry.Gui.App.{
  new_app, on_event, drain_events, filtered, clear_filters, App, Tab, alerts_tab, dashboard_tab,
}
use owl_sentry.Gui.Bars.{top_bar, filter_bar, TopInput, FilterInput}
use owl_sentry.Gui.AlertsView.{rows, alerts_view}
use owl_sentry.Gui.Dashboard.{central_panel, update, run_frames, FrameInput}

-- The box for notifications shows the flag that the client's thread reads.
abbrev pub InSync : App → Type 0
InSync app = app.notify_enabled ≡ app.notify_checkbox

on_event-InSync : (e : GuiEvent) (app : App) → InSync app → InSync (on_event e app)
unfolding on_event
on_event-InSync (connected l) app h = h
on_event-InSync disconnected app h = h
on_event-InSync (alert a) app h = h
on_event-InSync (recent log) app h = h

drain_events-InSync : (es : List GuiEvent) (app : App) → InSync app → InSync (drain_events es app)
unfolding drain_events
drain_events-InSync [] app h = h
drain_events-InSync (e ∷ es) app h =
    drain_events-InSync es (on_event e app) (on_event-InSync e app h)

top_bar-InSync : (i : TopInput) (app : App) → InSync app → InSync (top_bar i app).0
unfolding top_bar
top_bar-InSync i app h = ground arith

filter_bar-InSync : (i : FilterInput) (app : App) → InSync app → InSync (filter_bar i app).0
unfolding filter_bar clear_filters
filter_bar-InSync i app h = ground arith

module _ (show_date_time show_time : DateTime → Text) where
  rows-InSync :
      (clicks : ℕ → Bool) (n : ℕ) (log : List Alert) (app : App)
      → InSync app
      → InSync (rows show_date_time show_time clicks n log app).0
  unfolding rows
  rows-InSync clicks n [] app h = h
  rows-InSync clicks n (a ∷ log) app h = elim (Bool-cases (clicks n)) [
    | inl e ↦ rw e (rows-InSync clicks (n + 1) log (record app { selected = some a.id }) h)
    | inr e ↦ rw e (rows-InSync clicks (n + 1) log app h)
  ]

  alerts_view-InSync :
      (to_lowercase : Text → Text) (i : FilterInput) (clicks : ℕ → Bool) (app : App)
      → InSync app
      → InSync (alerts_view show_date_time show_time to_lowercase i clicks app).0
  unfolding alerts_view
  alerts_view-InSync to_lowercase i clicks app h =
      rows-InSync clicks 0 (filtered to_lowercase (filter_bar i app).0) (filter_bar i app).0
        (filter_bar-InSync i app h)

module _ (to_lowercase : Text → Text) (show_date_time show_time : DateTime → Text)
    (local_hour : ℕ → ℕ) where
  central_panel-InSync :
      (i : FrameInput) (t : Tab) (app : App)
      → InSync app
      → InSync (central_panel to_lowercase show_date_time show_time local_hour i t app).0
  unfolding central_panel
  central_panel-InSync i alerts_tab app h =
      alerts_view-InSync show_date_time show_time to_lowercase i.filters i.clicks app h
  central_panel-InSync i dashboard_tab app h = h

  update-InSync :
      (i : FrameInput) (app : App)
      → InSync app
      → InSync (update to_lowercase show_date_time show_time local_hour i app).0
  unfolding update
  update-InSync i app h =
      central_panel-InSync i _ _ (top_bar-InSync i.top _ (drain_events-InSync i.events app h))

  run_frames-InSync_from :
      (is : List FrameInput) (app : App)
      → InSync app
      → InSync (run_frames to_lowercase show_date_time show_time local_hour is app)
  unfolding run_frames
  run_frames-InSync_from [] app h = h
  run_frames-InSync_from (i ∷ is) app h = run_frames-InSync_from is _ (update-InSync i app h)

  -- After any frames of a new window, with any events and any input, the box for notifications
  -- shows the flag by which the client's thread decides whether to notify.
  pub run_frames-InSync :
      (lang : Lang) (is : List FrameInput)
      → InSync (run_frames to_lowercase show_date_time show_time local_hour is (new_app lang))
  unfolding new_app
  run_frames-InSync lang is = run_frames-InSync_from is (new_app lang) refl
