-- ===== src/Gui/Connect.antt =====
-- crates/owlsentry-gui/src/client.rs: `spawn`, the loop that connects again and again, an attempt at a
-- time; and crates/owlsentry-gui/src/main.rs, which starts it.
use owl_sentry.Base.{
  Bool, ◌&&◌, Option, map, List, [], ◌∷◌, ◌++◌, if◌then◌else◌, nat_eq, list_eq, pair_eq,
}
use owl_sentry.Text.{Text, codes, format}
use owl_sentry.I18n.{from_code}
use owl_sentry.Ipc.{ClientRequest, DaemonMessage}
use owl_sentry.Ipc.Wire.{frame}
use owl_sentry.Config.Types.{default_socket_path}
use owl_sentry.Gui.Client.{first_requests, read_lines, disconnected, Effect, send, repaint, sleep}
use owl_sentry.Gui.App.{new_app, App}

-- `send_request`: the text that it writes, with serde's writing of a request as a parameter
unfoldable pub request_text : (ClientRequest → Text) → ClientRequest → Text
request_text encode request = frame (encode request)

-- What stands in the socket behind both requests
unfoldable pub requests_text : (ClientRequest → Text) → Text
unfolding request_text first_requests
requests_text encode = format (map (request_text encode) first_requests)

-- What an attempt meets: whether the socket accepts, whether the two requests can be written and the
-- stream cloned, and the lines up to the end of the connection, each with the flag for notifications.
pub record Attempt : Type 0 where
  pub connects : Bool
  pub writes_subscribe : Bool
  pub writes_recent : Bool
  pub clones : Bool
  pub lines : List (Text × Bool)

abbrev pub gives_up : List Effect
gives_up = send disconnected ∷ repaint ∷ sleep 3 ∷ []

module _ (decode : Text → Option DaemonMessage) where
  -- A turn of the loop
  unfoldable pub attempt : Attempt → List Effect
  unfolding read_lines
  attempt a =
      if a.connects
      then if a.writes_subscribe && a.writes_recent
        then if a.clones then read_lines decode a.lines ++ (sleep 3 ∷ []) else sleep 3 ∷ []
        else gives_up
      else gives_up

  unfoldable pub attempts : List Attempt → List Effect
  unfolding attempt
  attempts [] = []
  attempts (a ∷ rest) = attempt a ++ attempts rest

pub record GuiArgs : Type 0 where
  pub socket : Text
  pub lang : Text

-- The arguments of a call without options
abbrev pub default_gui_args : GuiArgs
default_gui_args = record { socket = default_socket_path; lang = codes "fr" }

-- What `main` starts: the client's thread on a socket, and a new window.
pub record Started : Type 0 where
  pub socket_path : Text
  pub app : App

unfoldable pub start_gui : GuiArgs → Started
unfolding new_app from_code
start_gui args = record { socket_path = args.socket; app = new_app (from_code args.lang) }
