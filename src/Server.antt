-- ===== src/Server.antt =====
-- crates/owlsentry-daemon/src/ipc_server.rs: one client's session, `handle_client`. What serde makes
-- of a line is the parameter `decode`; whether a write to the socket succeeds comes with each event.
pub mod Socket
pub mod Access
pub mod Accept
pub mod World
pub mod Replies
pub mod Stream
pub mod Delivery
pub mod Progress
mod Tests
use Prim.Native.Nat.{min, max}
use owl_sentry.Base.{
  ℕ, Bool, true, false, List, [], ◌∷◌, ◌++◌, ltb, if◌then◌else◌, nat_eq, list_eq, pair_eq,
}
use owl_sentry.Text.{Text, codes, format, byte_len, is_empty, trim}
use owl_sentry.Alert.Types.{Alert}
use owl_sentry.Ipc.{
  ipc_protocol_version, ClientRequest, subscribe, get_recent, get_stats, ping, DaemonMessage, hello,
  alert, recent, stats, pong, error,
}
use owl_sentry.State.{recent_alerts, stats_of, DaemonState}

abbrev pub max_request_bytes : ℕ
max_request_bytes = 4096

-- `serde_json::from_str::<ClientRequest>`: a request, or the text of the error.
pub data Decoded : Type 0 where
  request : ClientRequest → Decoded
  invalid : Text → Decoded

-- What the `select!` of the loop may yield.
pub data Event : Type 0 where
  line : Text → Event
  end_of_input : Event
  read_error : Event
  received : Alert → Event
  lagged : ℕ → Event
  channel_closed : Event

-- Whether the loop goes on, has ended, or has ended with an error.
pub data Status : Type 0 where
  running : Status
  ended : Status
  failed : Status

pub record Session : Type 0 where
  pub subscribed : Bool
  pub status : Status
  pub sent : List DaemonMessage

-- `send`: an error of the write ends the session.
unfoldable pub send : Bool → DaemonMessage → Session → Session
send true message s = record s { sent = s.sent ++ (message ∷ []) }
send false message s = record s { status = failed }

-- The session up to the loop: the greeting, with the version of the daemon and its language.
unfoldable pub open_session : Text → Text → Bool → Session
unfolding send
open_session version language ok =
    send ok (DaemonMessage.hello version ipc_protocol_version language)
      (record { subscribed = false; status = running; sent = [] })

-- The `match` on the decoded request.
unfoldable pub on_request : DaemonState → Bool → Decoded → Session → Session
unfolding send
on_request state ok (request subscribe) s = record s { subscribed = true }
on_request state ok (request (get_recent limit)) s =
    send ok (DaemonMessage.recent (recent_alerts (min limit 10000) state)) s
on_request state ok (request get_stats) s = send ok (DaemonMessage.stats (stats_of state)) s
on_request state ok (request ping) s = send ok DaemonMessage.pong s
on_request state ok (invalid e) s =
    send ok (DaemonMessage.error (format (codes "requête invalide: " ∷ e ∷ []))) s

module _ (decode : Text → Decoded) where
  unfoldable pub on_line : DaemonState → Bool → Text → Session → Session
  unfolding send on_request
  on_line state ok text s =
      if ltb max_request_bytes (byte_len text)
      then send ok (DaemonMessage.error (codes "requête trop longue")) s
      else if is_empty (trim text)
      then s
      else on_request state ok (decode text) s

  -- The body of the loop, for the event that the `select!` yields.
  unfoldable pub on_event : DaemonState → Bool → Event → Session → Session
  unfolding on_line
  on_event state ok (line text) s = on_line state ok text s
  on_event state ok end_of_input s = record s { status = ended }
  on_event state ok read_error s = record s { status = failed }
  on_event state ok (received a) s = send ok (DaemonMessage.alert a) s
  on_event state ok (lagged n) s = s
  on_event state ok channel_closed s = record s { status = ended }
