-- ===== src/Start.antt =====
-- crates/owlsentry-daemon/src/main.rs, with `init` of crates/owlsentry-daemon/src/logging.rs. What
-- `main` does is a list of effects; what the system and the libraries answer comes from outside.
pub mod Effects
pub mod Sound
pub mod Exits
mod Tests
use owl_sentry.Base.{
  ℕ, Bool, false, ◌&&◌, Option, List, [], ◌∷◌, ◌++◌, if◌then◌else◌, nat_eq, list_eq, pair_eq,
}
use owl_sentry.Text.{Text, codes}
use owl_sentry.I18n.{Lang, from_code}
use owl_sentry.Fs.{with_log_dir, FsRules}
use owl_sentry.Audit.Monitor.{SelinuxRules}
use owl_sentry.Config.Types.{
  default_config, DaemonConfig, GeneralCfg, AuditCfg, FsCfg, NetCfg, ConfigError,
}
use owl_sentry.Config.Validate.{load, Loaded, ok, err, FileRead}
use owl_sentry.Config.Rules.{load_or_default, Rules, NetRules}

-- `DEFAULT_CONFIG_PATH` of crates/owlsentry-common/src/lib.rs
abbrev pub default_config_path : Text
default_config_path = codes "/etc/owlsentry/owlsentry.conf"

pub record Args : Type 0 where
  pub config : Text
  pub check_config : Bool

-- The arguments of a call without options
abbrev pub default_args : Args
default_args = record { config = default_config_path; check_config = false }

pub data StartError : Type 0 where
  loading : (path : Text) → ConfigError → StartError
  logging : StartError
  signal : StartError

pub data Result (A : Type 0) : Type 0 where
  good : A → Result A
  bad : StartError → Result A

-- `init` of the logging: the filter in use, if the directory was made, its permissions set and the
-- subscriber installed.
unfoldable pub init :
    (is_filter : Text → Bool) (dir_ok mode_ok tracing_ok : Bool) → Text → Result Text
init is_filter dir_ok mode_ok tracing_ok level =
    if dir_ok && mode_ok && tracing_ok
    then good (if is_filter level then level else codes "info")
    else bad logging

-- The fields of `IpcServer` that come from the configuration
pub record IpcServer : Type 0 where
  pub socket_path : Text
  pub socket_group : Text
  pub language : Text

-- The tasks that `main` spawns, with their arguments. The state of the dispatcher and the server is
-- new, with a capacity.
pub data Task : Type 0 where
  dispatcher : (recent_buffer : ℕ) → Task
  audit_monitor : AuditCfg → SelinuxRules → Lang → Task
  fs_monitor : FsCfg → FsRules → Lang → Task
  net_monitor : NetCfg → NetRules → Lang → Task
  process_monitor : (scan_interval_secs : ℕ) → Lang → Task
  ipc_server : IpcServer → Task

pub data Effect : Type 0 where
  warns_no_config : Effect
  says_valid : Effect
  warns_no_audit : Effect
  spawns : Task → Effect
  aborts_ipc : Effect
  removes : (socket_path : Text) → Effect
  warns_socket : Effect

-- How `remove_file` ends: the file is removed, there was none, or another error.
pub data Cleanup : Type 0 where
  removed : Cleanup
  missing : Cleanup
  refused : Cleanup

-- What the system and the libraries answer. A signal arrives in the end.
pub record Outside : Type 0 where
  pub exists : Text → Bool
  pub read_to_string : Text → FileRead
  pub parse_config : Text → Option DaemonConfig
  pub parse_rules : Text → Option Rules
  pub debug_text : Text → Text
  pub is_filter : Text → Bool
  pub dir_ok : Bool
  pub mode_ok : Bool
  pub tracing_ok : Bool
  pub sigterm_ok : Bool
  pub remove_file : Text → Cleanup

abbrev pub with_rules : DaemonConfig → Loaded Rules → Result (DaemonConfig × Rules)
with_rules c (ok rules) = good (c, rules)
with_rules c (err e) = bad (loading c.general.rules_path e)

unfoldable pub with_config : Outside → Text → Loaded DaemonConfig → Result (DaemonConfig × Rules)
unfolding load_or_default
with_config o path (err e) = bad (loading path e)
with_config o path (ok c) =
    with_rules c (load_or_default o.read_to_string o.parse_rules c.general.rules_path)

abbrev pub config_of : Outside → Args → Loaded DaemonConfig
config_of o args =
    if o.exists args.config
    then load o.debug_text o.read_to_string o.parse_config args.config
    else ok default_config

unfoldable pub load_config : Outside → Args → Result (DaemonConfig × Rules)
unfolding with_config
load_config o args = with_config o args.config (config_of o args)

abbrev pub when : Bool → Task → List Effect
when enabled task = if enabled then spawns task ∷ [] else []

-- The monitors that are enabled, in their order
unfoldable pub monitors : DaemonConfig → Rules → Lang → List Effect
unfolding with_log_dir
monitors c rules lang =
    (if c.audit.enabled
      then spawns (audit_monitor c.audit rules.selinux lang) ∷ []
      else warns_no_audit ∷ [])
    ++ when c.filesystem.enabled
        (fs_monitor c.filesystem (with_log_dir c.general.log_dir rules.filesystem) lang)
    ++ when c.network.enabled (net_monitor c.network rules.network lang)
    ++ when c.process.enabled (process_monitor c.process.scan_interval_secs lang)

abbrev pub server_of : GeneralCfg → IpcServer
server_of g = record {
  socket_path = g.socket_path;
  socket_group = g.socket_group;
  language = g.language;
}

unfoldable pub tasks : DaemonConfig → Rules → List Effect
unfolding monitors from_code
tasks c rules =
    spawns (dispatcher c.general.recent_buffer)
    ∷ (monitors c rules (from_code c.general.language)
        ++ (spawns (ipc_server (server_of c.general)) ∷ []))

pub record Run : Type 0 where
  pub effects : List Effect
  pub exit : Result Unit

-- The end of `main`: a socket that is missing is none to remove, and any other error is a warning.
abbrev pub clean_socket : Cleanup → Text → List Effect
clean_socket removed path = removes path ∷ []
clean_socket missing path = []
clean_socket refused path = warns_socket ∷ []

abbrev pub after_init : Outside → DaemonConfig → Rules → Result Text → Run
after_init o c rules (bad e) = record { effects = []; exit = bad e }
after_init o c rules (good filter) =
    if o.sigterm_ok
    then record {
      effects =
          tasks c rules
          ++ (aborts_ipc
              ∷ clean_socket (o.remove_file c.general.socket_path) c.general.socket_path);
      exit = good tt;
    }
    else record { effects = tasks c rules; exit = bad signal }

abbrev pub after_loading : Outside → Args → Result (DaemonConfig × Rules) → Run
after_loading o args (bad e) = record { effects = []; exit = bad e }
after_loading o args (good (c, rules)) =
    if args.check_config
    then record { effects = says_valid ∷ []; exit = good tt }
    else after_init o c rules (init o.is_filter o.dir_ok o.mode_ok o.tracing_ok c.general.log_level)

abbrev pub warning : Outside → Args → List Effect
warning o args = if o.exists args.config then [] else warns_no_config ∷ []

unfoldable pub main : Outside → Args → Run
unfolding load_config init tasks
main o args =
    let r = after_loading o args (load_config o args) in
    record { effects = warning o args ++ r.effects; exit = r.exit }
