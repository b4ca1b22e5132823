-- ===== src/Config/Types.antt =====
-- crates/owlsentry-common/src/config.rs: the configuration of the daemon, with its defaults, and
-- the errors of loading it.
use owl_sentry.Base.{ℕ, Bool, true, false, List, [], ◌∷◌, nat_eq, list_eq, pair_eq}
use owl_sentry.Text.{Text, codes}

pub data ConfigError : Type 0 where
  io : (path : Text) → ConfigError
  parse : (path : Text) → ConfigError
  invalid_config : (reason : Text) → ConfigError

pub record GeneralCfg : Type 0 where
  pub language : Text
  pub log_dir : Text
  pub log_level : Text
  pub socket_path : Text
  pub socket_group : Text
  pub rules_path : Text
  pub recent_buffer : ℕ

-- `DEFAULT_SOCKET_PATH` (crates/owlsentry-common/src/lib.rs)
abbrev pub default_socket_path : Text
default_socket_path = codes "/run/owlsentry/owlsentry.sock"

unfoldable pub default_general : GeneralCfg
default_general = record {
  language = codes "fr";
  log_dir = codes "/var/log/owlsentry";
  log_level = codes "info";
  socket_path = default_socket_path;
  socket_group = codes "owlsentry";
  rules_path = codes "/etc/owlsentry/rules.toml";
  recent_buffer = 1000;
}

pub record AuditCfg : Type 0 where
  pub enabled : Bool
  pub audit_log : Text
  pub poll_interval_ms : ℕ

unfoldable pub default_audit : AuditCfg
default_audit = record {
  enabled = true;
  audit_log = codes "/var/log/audit/audit.log";
  poll_interval_ms = 500;
}

pub record FsCfg : Type 0 where
  pub enabled : Bool
  pub watch_paths : List Text
  pub debounce_secs : ℕ

unfoldable pub default_filesystem : FsCfg
default_filesystem = record {
  enabled = true;
  watch_paths =
      codes "/etc"
      ∷ codes "/usr/bin"
      ∷ codes "/usr/sbin"
      ∷ codes "/usr/local/bin"
      ∷ codes "/var/log"
      ∷ codes "/tmp"
      ∷ codes "/dev/shm"
      ∷ [];
  debounce_secs = 5;
}

pub record NetCfg : Type 0 where
  pub enabled : Bool
  pub poll_interval_secs : ℕ
  pub port_scan_threshold : ℕ
  pub port_scan_window_secs : ℕ
  pub alert_new_listener : Bool
  pub firewalld_block : Bool
  pub block_duration_secs : ℕ

unfoldable pub default_network : NetCfg
default_network = record {
  enabled = true;
  poll_interval_secs = 5;
  port_scan_threshold = 15;
  port_scan_window_secs = 30;
  alert_new_listener = true;
  firewalld_block = false;
  block_duration_secs = 3600;
}

pub record ProcCfg : Type 0 where
  pub enabled : Bool
  pub scan_interval_secs : ℕ

unfoldable pub default_process : ProcCfg
default_process = record { enabled = true; scan_interval_secs = 30 }

pub record DaemonConfig : Type 0 where
  pub general : GeneralCfg
  pub audit : AuditCfg
  pub filesystem : FsCfg
  pub network : NetCfg
  pub process : ProcCfg

unfoldable pub default_config : DaemonConfig
unfolding default_general default_audit default_filesystem default_network default_process
default_config = record {
  general = default_general;
  audit = default_audit;
  filesystem = default_filesystem;
  network = default_network;
  process = default_process;
}
