-- ===== src/Gui/Client.antt =====
-- crates/owlsentry-gui/src/client.rs: the loop over the lines that a connection yields. What serde
-- makes of a line is the parameter `decode`.
use owl_sentry.Base.{
  ℕ, Bool, ◌&&◌, Option, none, some, List, [], ◌∷◌, ◌++◌, if◌then◌else◌, nat_eq, list_eq, pair_eq,
}
use owl_sentry.Text.{Text, is_empty, trim}
use owl_sentry.Alert.Types.{severity_ge, Alert, high, critical}
use owl_sentry.Ipc.{default_recent_limit, ClientRequest, subscribe, get_recent, DaemonMessage}

pub data GuiEvent : Type 0 where
  connected : Text → GuiEvent
  disconnected : GuiEvent
  alert : Alert → GuiEvent
  recent : List Alert → GuiEvent

pub data Urgency : Type 0 where
  normal : Urgency
  urgent : Urgency

-- What the thread does to the outside: events for the window, desktop notifications, repaints; and
-- that it sleeps, for a number of seconds.
pub data Effect : Type 0 where
  send : GuiEvent → Effect
  notify : Alert → Urgency → Effect
  repaint : Effect
  sleep : ℕ → Effect

-- The urgency that `desktop_notify` chooses
unfoldable pub urgency_of : Alert → Urgency
urgency_of a = if severity_ge a.severity critical then urgent else normal

-- The `match` on the decoded line; the flag is `notify_enabled`.
unfoldable pub on_message : Bool → Option DaemonMessage → List Effect
unfolding urgency_of
on_message enabled (some (DaemonMessage.hello version protocol language)) =
    send (connected language) ∷ []
on_message enabled (some (DaemonMessage.alert a)) =
    if severity_ge a.severity high && enabled
    then notify a (urgency_of a) ∷ send (alert a) ∷ []
    else send (alert a) ∷ []
on_message enabled (some (DaemonMessage.recent alerts)) = send (recent alerts) ∷ []
on_message enabled (some (DaemonMessage.stats s)) = []
on_message enabled (some DaemonMessage.pong) = []
on_message enabled (some (DaemonMessage.error e)) = []
on_message enabled none = []

module _ (decode : Text → Option DaemonMessage) where
  -- One connection's lines, each with the flag as it is read then, up to the end of the connection.
  unfoldable pub read_lines : List (Text × Bool) → List Effect
  unfolding on_message
  read_lines [] = send disconnected ∷ repaint ∷ []
  read_lines ((line, enabled) ∷ rest) =
      if is_empty (trim line)
      then read_lines rest
      else on_message enabled (decode line) ++ (repaint ∷ read_lines rest)

-- The start of a connection: both requests are written before a line is read.
unfoldable pub first_requests : List ClientRequest
first_requests = subscribe ∷ get_recent default_recent_limit ∷ []
