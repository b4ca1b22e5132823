-- ===== src/Pipeline/Reconnect.antt =====
-- The window over all connections of the client's thread.
use owl_sentry.Base.{
  ◌≡◌, refl, ap, ◌∙◌, inl, inr, Bool, false, Bool-cases, ◌&&◌, Option, List, [], ◌∷◌, ◌++◌, nat_eq,
  list_eq, pair_eq,
}
use owl_sentry.Text.{Text, is_empty, trim}
use owl_sentry.Ipc.{DaemonMessage}
use owl_sentry.Gui.Client.{read_lines, on_message, GuiEvent, Effect, send, notify, repaint, sleep}
use owl_sentry.Gui.App.{drain_events, on_event, new_app, App}
use owl_sentry.Gui.Connect.{attempt, attempts, start_gui, Attempt, GuiArgs}
use owl_sentry.Pipeline.Window.{events_of}

drain_events-append :
    (es fs : List GuiEvent) (app : App)
    → drain_events (es ++ fs) app ≡ drain_events fs (drain_events es app)
unfolding drain_events
drain_events-append [] fs app = refl
drain_events-append (e ∷ es) fs app = drain_events-append es fs (on_event e app)

events_of-append : (es fs : List Effect) → events_of (es ++ fs) ≡ events_of es ++ events_of fs
unfolding events_of
events_of-append [] fs = refl
events_of-append (send e ∷ es) fs = ap (λ r. e ∷ r) (events_of-append es fs)
events_of-append (notify a u ∷ es) fs = events_of-append es fs
events_of-append (repaint ∷ es) fs = events_of-append es fs
events_of-append (sleep n ∷ es) fs = events_of-append es fs

-- The window behind the effects of the thread
abbrev pub after : List Effect → App → App
after effects app = drain_events (events_of effects) app

after-append : (es fs : List Effect) (app : App) → after (es ++ fs) app ≡ after fs (after es app)
after-append es fs app =
    ap (λ r. drain_events r app) (events_of-append es fs)
    ∙ drain_events-append (events_of es) (events_of fs) app

module _ (decode : Text → Option DaemonMessage) where
  read_lines-disconnects :
      (ls : List (Text × Bool)) (app : App)
      → (after (read_lines decode ls) app).is_connected ≡ false
  unfolding read_lines events_of drain_events on_event
  read_lines-disconnects [] app = refl
  read_lines-disconnects ((l, enabled) ∷ ls) app = elim (Bool-cases (is_empty (trim l))) [
    | inl e ↦ rw (read_lines, e) (read_lines-disconnects ls app)
    | inr e ↦
        rw (read_lines, e)
          (rw (after-append (on_message enabled (decode l)) (repaint ∷ read_lines decode ls) app)
            (read_lines-disconnects ls _))
  ]

  attempt-disconnects :
      (a : Attempt) (app : App)
      → app.is_connected ≡ false
      → (after (attempt decode a) app).is_connected ≡ false
  unfolding attempt events_of drain_events on_event
  attempt-disconnects a app h = elim (Bool-cases a.connects) [
    | inr e ↦ rw (attempt, e) refl
    | inl e ↦ elim (Bool-cases (a.writes_subscribe && a.writes_recent)) [
      | inr f ↦ rw (attempt, e, f) refl
      | inl f ↦ elim (Bool-cases a.clones) [
        | inr g ↦ rw (attempt, e, f, g) h
        | inl g ↦
            rw (attempt, e, f, g)
              (rw (after-append (read_lines decode a.lines) (sleep 3 ∷ []) app)
                (read_lines-disconnects a.lines app))
      ]
    ]
  ]

  attempts-disconnects_from :
      (rounds : List Attempt) (app : App)
      → app.is_connected ≡ false
      → (after (attempts decode rounds) app).is_connected ≡ false
  unfolding attempts events_of drain_events
  attempts-disconnects_from [] app h = h
  attempts-disconnects_from (a ∷ rounds) app h =
      rw (after-append (attempt decode a) (attempts decode rounds) app)
        (attempts-disconnects_from rounds _ (attempt-disconnects a app h))

  -- However the attempts to connect end, and whatever was read in them: behind the last of them, when
  -- the thread sleeps, the window of `main` shows that it is not connected.
  pub attempts-disconnects :
      (args : GuiArgs) (rounds : List Attempt)
      → (after (attempts decode rounds) (start_gui args).app).is_connected ≡ false
  unfolding start_gui new_app
  attempts-disconnects args rounds = attempts-disconnects_from rounds _ refl
