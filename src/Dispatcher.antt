-- ===== src/Dispatcher.antt =====
-- crates/owlsentry-daemon/src/dispatcher.rs: the loop that numbers the alerts, writes them to the
-- journal (crates/owlsentry-daemon/src/logging.rs), records them and sends them to the clients.
-- Whether a line of the journal could be written comes from outside, with each alert.
pub mod Ids
pub mod Writer
pub mod Journal
mod Tests
use owl_sentry.Base.{
  ℕ, Bool, true, false, Option, List, [], ◌∷◌, ◌++◌, next_u64, all, nat_eq, list_eq, pair_eq,
}
use owl_sentry.Alert.Types.{DateTime, Alert}
use owl_sentry.State.{new_state, record_alert, DaemonState}

-- `AlertWriter`: the lines of the journal, as the alerts that they hold.
pub record AlertWriter : Type 0 where
  pub lines : List Alert

-- `AlertWriter::write`, where `fits` says that the serialisation, the lock and the file succeed.
-- On an error nothing of the line counts as written.
unfoldable pub write : Bool → Alert → AlertWriter → AlertWriter × Bool
write true a w = (record w { lines = w.lines ++ (a ∷ []) }, true)
write false a w = (w, false)

-- What the loop owns or shares: `NEXT_ID`, the state, the journal and all that was broadcast.
pub record Dispatcher : Type 0 where
  pub next_id : ℕ
  pub state : DaemonState
  pub writer : AlertWriter
  pub broadcast : List Alert

module _ (from_timestamp : ℕ → ℕ → Option DateTime) where
  -- One turn of the loop of `run`. An error of the journal is only logged.
  unfoldable pub dispatch : Bool → Alert → Dispatcher → Dispatcher
  unfolding write
  dispatch fits received d =
      let a = record received { id = d.next_id } in
      record {
        next_id = next_u64 d.next_id;
        state = record_alert from_timestamp a d.state;
        writer = (write fits a d.writer).0;
        broadcast = d.broadcast ++ (a ∷ []);
      }

  -- `run`, over the alerts that the monitors send until they close the channel.
  unfoldable pub run : List (Bool × Alert) → Dispatcher → Dispatcher
  run [] d = d
  run ((fits, a) ∷ rest) d = run rest (dispatch fits a d)

-- The dispatcher of a daemon that has just started.
unfoldable pub start : DateTime → ℕ → Dispatcher
start now capacity = record {
  next_id = 1;
  state = new_state now capacity;
  writer = record { lines = [] };
  broadcast = [];
}
