-- ===== src/Server/World.antt =====
-- A session beside the dispatcher: the steps of both in any order. The receiver of a session exists
-- from the accepted connection on, so it queues what is broadcast before the client subscribes. A
-- receiver that is too slow loses its oldest alerts.
use owl_sentry.Base.{
  ℕ, ◌≡◌, Bool, true, false, Option, none, some, List, [], ◌∷◌, ◌++◌, drop, nat_eq, list_eq,
  pair_eq,
}
use owl_sentry.Text.{Text}
use owl_sentry.Alert.Types.{DateTime, Alert}
use owl_sentry.State.{record_alert, DaemonState}
use owl_sentry.Server.{
  open_session, on_event, Session, Decoded, line, end_of_input, read_error, received, lagged,
  running,
}

-- `pending` is an alert that the dispatcher has recorded and not yet broadcast. `broadcast` is all
-- that was broadcast since the connection was accepted, and `lossless` says that nothing of it was
-- dropped for a slow receiver; no step reads these two. A session that has ended drops its receiver;
-- the queue that still stands here is read by no step either.
pub record World : Type 0 where
  pub daemon : DaemonState
  pub pending : Option Alert
  pub broadcast : List Alert
  pub queue : List Alert
  pub session : Session
  pub lossless : Bool

-- A connection accepted beside a daemon, with nothing broadcast since.
abbrev pub accepted : Text → Text → Bool → DaemonState → Option Alert → World
accepted version language ok daemon pending = record {
  daemon = daemon;
  pending = pending;
  broadcast = [];
  queue = [];
  session = open_session version language ok;
  lossless = true;
}

module _ (from_timestamp : ℕ → ℕ → Option DateTime) (decode : Text → Decoded) where
  pub data Step (w : World) : World → Type 0 where
    -- `state.record(&alert)` and `broadcast_tx.send(alert)` of the dispatcher
    records :
        (a : Alert)
        → w.pending ≡ none
        → Step w (record w { daemon = record_alert from_timestamp a w.daemon; pending = some a })
    broadcasts :
        (a : Alert)
        → w.pending ≡ some a
        → Step w (record w {
          pending = none;
          broadcast = w.broadcast ++ (a ∷ []);
          queue = w.queue ++ (a ∷ []);
        })
    -- the arm `lines.next_line()`
    reads :
        (ok : Bool) (text : Text)
        → w.session.status ≡ running
        → Step w (record w { session = on_event decode w.daemon ok (line text) w.session })
    hangs_up :
        w.session.status ≡ running
        → Step w (record w { session = on_event decode w.daemon true end_of_input w.session })
    breaks :
        w.session.status ≡ running
        → Step w (record w { session = on_event decode w.daemon true read_error w.session })
    -- the arm `alerts_rx.recv()`, which is tried only if the client has subscribed
    delivers :
        (ok : Bool) (a : Alert) (rest : List Alert)
        → w.session.status ≡ running
        → w.session.subscribed ≡ true
        → w.queue ≡ a ∷ rest
        → Step w (record w {
          queue = rest;
          session = on_event decode w.daemon ok (received a) w.session;
        })
    lags :
        (n : ℕ)
        → w.session.status ≡ running
        → w.session.subscribed ≡ true
        → Step w (record w {
          queue = drop n w.queue;
          session = on_event decode w.daemon true (lagged n) w.session;
          lossless = false;
        })

  pub data Reach (w : World) : World → Type 0 where
    here : Reach w w
    next : {u v : World} → Reach w u → Step u v → Reach w v
