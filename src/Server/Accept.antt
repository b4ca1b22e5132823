-- ===== src/Server/Accept.antt =====
-- crates/owlsentry-daemon/src/ipc_server.rs: the loop of `serve`. Each connection gets a task of its
-- own, with a receiver of its own.
use owl_sentry.Base.{Bool, Option, List, [], ◌∷◌, nat_eq, list_eq, pair_eq}
use owl_sentry.Text.{Text}
use owl_sentry.Alert.Types.{Alert}
use owl_sentry.State.{DaemonState}
use owl_sentry.Server.World.{accepted, World}

-- What `accept` returns: a connection, with the daemon and the dispatcher as they are then and whether
-- the greeting can be written; or an error.
pub data Incoming : Type 0 where
  connection : (daemon : DaemonState) (pending : Option Alert) (greeted : Bool) → Incoming
  accept_error : Incoming

-- The sessions that are spawned. An error ends the loop, and with it the server.
unfoldable pub accept_loop : (version language : Text) → List Incoming → List World
accept_loop version language [] = []
accept_loop version language (connection daemon pending greeted ∷ rest) =
    accepted version language greeted daemon pending ∷ accept_loop version language rest
accept_loop version language (accept_error ∷ rest) = []
