-- ===== src/Daemon.antt =====
-- The daemon as a whole: the dispatcher (crates/owlsentry-daemon/src/dispatcher.rs, `run`) beside any
-- number of sessions (crates/owlsentry-daemon/src/ipc_server.rs, `serve` and `handle_client`), each a
-- task of its own. The steps of all of them come in any order.
pub mod Serving
pub mod Sessions
pub mod Agreement
pub mod Order
pub mod Run
mod Tests
use owl_sentry.Base.{
  length, ℕ, ◌≡◌, Bool, true, Option, none, some, List, [], ◌∷◌, ◌++◌, map, next_u64, nat_eq,
  list_eq, pair_eq,
}
use owl_sentry.Text.{Text}
use owl_sentry.Alert.Types.{DateTime, Alert}
use owl_sentry.State.{record_alert}
use owl_sentry.Server.{open_session, Session, Decoded}
use owl_sentry.Server.World
use owl_sentry.Server.World.{World}
use owl_sentry.Dispatcher.{write, start, Dispatcher}

-- A connection's receiver and session. `joined` is how many alerts had been broadcast when it was
-- accepted, `heard` is all that was broadcast since, and `lossless` says that the receiver has not
-- lagged; no step reads these three. A session that has ended drops its receiver; the queue that
-- still stands here is read by no step either.
pub record Client : Type 0 where
  pub joined : ℕ
  pub heard : List Alert
  pub queue : List Alert
  pub session : Session
  pub lossless : Bool

-- `pending` is the alert that is recorded and not yet broadcast. `arrivals` is all that the monitors
-- have sent, with whether its line of the journal could be written; no step reads it.
pub record Daemon : Type 0 where
  pub dispatcher : Dispatcher
  pub pending : Option Alert
  pub clients : List Client
  pub arrivals : List (Bool × Alert)

abbrev pub hear : Alert → Client → Client
hear a c = record c { heard = c.heard ++ (a ∷ []); queue = c.queue ++ (a ∷ []) }

-- A turn of the dispatcher up to the broadcast
abbrev pub begin : (ℕ → ℕ → Option DateTime) → Bool → Alert → Dispatcher → Dispatcher
begin from_timestamp fits received d =
    let a = record received { id = d.next_id } in
    record d {
      next_id = next_u64 d.next_id;
      state = record_alert from_timestamp a d.state;
      writer = (write fits a d.writer).0;
    }

-- What one session sees of the daemon
abbrev pub view : Dispatcher → Option Alert → Client → World
view dispatcher pending c = record {
  daemon = dispatcher.state;
  pending = pending;
  broadcast = c.heard;
  queue = c.queue;
  session = c.session;
  lossless = c.lossless;
}

-- The receiver subscribes to the channel when the connection is accepted.
abbrev pub new_client : (version language : Text) → Bool → ℕ → Client
new_client version language greeted joined = record {
  joined = joined;
  heard = [];
  queue = [];
  session = open_session version language greeted;
  lossless = true;
}

module _ (from_timestamp : ℕ → ℕ → Option DateTime) (decode : Text → Decoded)
    (version language : Text) where
  pub data Step (h : Daemon) : Daemon → Type 0 where
    receives :
        (fits : Bool) (received : Alert)
        → h.pending ≡ none
        → Step h (record h {
          dispatcher = begin from_timestamp fits received h.dispatcher;
          pending = some (record received { id = h.dispatcher.next_id });
          arrivals = h.arrivals ++ ((fits, received) ∷ []);
        })
    broadcasts :
        (a : Alert)
        → h.pending ≡ some a
        → Step h (record h {
          dispatcher = record h.dispatcher { broadcast = h.dispatcher.broadcast ++ (a ∷ []) };
          pending = none;
          clients = map (hear a) h.clients;
        })
    accepts :
        (greeted : Bool)
        → Step h (record h {
          clients =
              h.clients
              ++ (new_client version language greeted (length h.dispatcher.broadcast) ∷ []);
        })
    -- A session's own step: one that leaves the daemon, what is pending and what was broadcast.
    serves :
        (before after : List Client) (c d : Client)
        → h.clients ≡ before ++ (c ∷ after)
        → d.heard ≡ c.heard
        → d.joined ≡ c.joined
        → World.Step from_timestamp decode
            (view h.dispatcher h.pending c)
            (view h.dispatcher h.pending d)
        → Step h (record h { clients = before ++ (d ∷ after) })

  pub data Reach (h : Daemon) : Daemon → Type 0 where
    here : Reach h h
    next : {g k : Daemon} → Reach h g → Step g k → Reach h k

-- A daemon that has just started: no client, and nothing received.
abbrev pub started : DateTime → ℕ → Daemon
started now capacity = record {
  dispatcher = start now capacity;
  pending = none;
  clients = [];
  arrivals = [];
}
