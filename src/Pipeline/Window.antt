-- ===== src/Pipeline/Window.antt =====
-- What a window shows of the messages that a session has sent: they are written as lines, which the
-- client's thread reads, and whose events the window takes. `encode` is serde's writing of a message,
-- and `read_message` its reading.
use owl_sentry.Base.{
  ◌≡◌, refl, ap, ◌∙◌, inl, inr, Bool, false, ◌&&◌, Option, some, List, [], ◌∷◌, ◌++◌, map, All,
  Bool-cases, nat_eq, list_eq, pair_eq,
}
use owl_sentry.Text.{Text, is_empty, trim}
use owl_sentry.Alert.Types.{severity_ge, high}
use owl_sentry.I18n.{Lang}
use owl_sentry.Ipc.{DaemonMessage}
use owl_sentry.Gui.Client.{
  on_message, read_lines, GuiEvent, connected, disconnected, Effect, notify, repaint, sleep,
}
use owl_sentry.Gui.App.{new_app, drain_events, App}

-- The events that the thread sends to the window
unfoldable pub events_of : List Effect → List GuiEvent
events_of [] = []
events_of (Effect.send e ∷ effects) = e ∷ events_of effects
events_of (notify a u ∷ effects) = events_of effects
events_of (repaint ∷ effects) = events_of effects
events_of (sleep n ∷ effects) = events_of effects

-- The line of a message is read back, and is not blank.
pub record IsReadable (encode : DaemonMessage → Text) (read_message : Text → Option DaemonMessage)
    (m : DaemonMessage) : Type 0 where
  pub reads_back : read_message (encode m) ≡ some m
  pub is_full : is_empty (trim (encode m)) ≡ false

abbrev pub lines_of : (DaemonMessage → Text) → Bool → List DaemonMessage → List (Text × Bool)
lines_of encode enabled = map (λ m. (encode m, enabled))

-- A new window behind a connection on which these messages have come
unfoldable pub window_of :
    (encode : DaemonMessage → Text) (read_message : Text → Option DaemonMessage) (enabled : Bool)
    (lang : Lang)
    → List DaemonMessage
    → App
window_of encode read_message enabled lang sent =
    drain_events (events_of (read_lines read_message (lines_of encode enabled sent))) (new_app lang)

-- What a message is to the window
unfoldable pub event_of : DaemonMessage → List GuiEvent
event_of (DaemonMessage.hello version protocol language) = connected language ∷ []
event_of (DaemonMessage.alert a) = GuiEvent.alert a ∷ []
event_of (DaemonMessage.recent log) = GuiEvent.recent log ∷ []
event_of _ = []

unfoldable pub all_events : List DaemonMessage → List GuiEvent
all_events [] = disconnected ∷ []
all_events (m ∷ ms) = event_of m ++ all_events ms

pub events_of-on_message :
    (enabled : Bool) (m : DaemonMessage) (rest : List Effect)
    → events_of (on_message enabled (some m) ++ (repaint ∷ rest)) ≡ event_of m ++ events_of rest
unfolding on_message events_of event_of
events_of-on_message enabled (DaemonMessage.hello version protocol language) rest = refl
events_of-on_message enabled (DaemonMessage.alert a) rest =
    elim (Bool-cases (severity_ge a.severity high && enabled)) [
      | inl e ↦ rw e refl
      | inr e ↦ rw e refl
    ]
events_of-on_message enabled (DaemonMessage.recent log) rest = refl
events_of-on_message enabled (DaemonMessage.stats s) rest = refl
events_of-on_message enabled DaemonMessage.pong rest = refl
events_of-on_message enabled (DaemonMessage.error e) rest = refl

events_of-read_lines :
    (encode : DaemonMessage → Text) (read_message : Text → Option DaemonMessage) (enabled : Bool)
    (sent : List DaemonMessage)
    → All (IsReadable encode read_message) sent
    → events_of (read_lines read_message (lines_of encode enabled sent)) ≡ all_events sent
unfolding read_lines all_events events_of
events_of-read_lines encode read_message enabled [] c = refl
events_of-read_lines encode read_message enabled (m ∷ sent) c =
    rw (c.0.is_full, c.0.reads_back)
      (events_of-on_message enabled m _
        ∙ ap (λ es. event_of m ++ es) (events_of-read_lines encode read_message enabled sent c.1))

-- If every message is read back from its line, and no line is blank, then, whether or not
-- notifications are enabled, the window takes the greeting, the answers with recent
-- alerts and the streamed alerts, in their order, and then the end of the connection.
pub window_of_lem :
    (encode : DaemonMessage → Text) (read_message : Text → Option DaemonMessage) (enabled : Bool)
    (lang : Lang) (sent : List DaemonMessage)
    → All (IsReadable encode read_message) sent
    → window_of encode read_message enabled lang sent
      ≡ drain_events (all_events sent) (new_app lang)
unfolding window_of
window_of_lem encode read_message enabled lang sent c =
    ap (λ es. drain_events es (new_app lang))
      (events_of-read_lines encode read_message enabled sent c)
