-- ===== src/Ipc.antt =====
-- crates/owlsentry-common/src/ipc.rs: the requests and the messages of the protocol, with the
-- statistics that they carry.
pub mod Wire
use owl_sentry.Base.{ℕ, List, [], nat_eq, list_eq, pair_eq}
use owl_sentry.Text.{Text}
use owl_sentry.Alert.Types.{DateTime, Alert}

-- `IPC_PROTOCOL_VERSION` of crates/owlsentry-common/src/lib.rs
abbrev pub ipc_protocol_version : ℕ
ipc_protocol_version = 1

-- `default_recent_limit`
abbrev pub default_recent_limit : ℕ
default_recent_limit = 500

pub data ClientRequest : Type 0 where
  subscribe : ClientRequest
  get_recent : ℕ → ClientRequest
  get_stats : ClientRequest
  ping : ClientRequest

pub record HourBucket : Type 0 where
  pub hour : DateTime
  pub count : ℕ

pub record Stats : Type 0 where
  pub started_at : DateTime
  pub total : ℕ
  pub by_severity : List (Text × ℕ)
  pub by_category : List (Text × ℕ)
  pub hourly : List HourBucket

-- `Stats::new`
unfoldable pub new_stats : DateTime → Stats
new_stats started_at = record {
  started_at = started_at;
  total = 0;
  by_severity = [];
  by_category = [];
  hourly = [];
}

pub data DaemonMessage : Type 0 where
  hello : Text → ℕ → Text → DaemonMessage
  alert : Alert → DaemonMessage
  recent : List Alert → DaemonMessage
  stats : Stats → DaemonMessage
  pong : DaemonMessage
  error : Text → DaemonMessage
