-- ===== src/Start/Sound.antt =====
-- The arguments of the tasks that the start of the daemon spawns.
use mathlib.Core.Path.{subst}
use owl_sentry.Base.{
  ◌<◌, ◌≡◌, refl, sym, ◌∙◌, inl, inr, true, Bool-cases, none, List, [], ◌∷◌, arith, All, All-In, In,
  map, nat_eq, list_eq, pair_eq,
}
use owl_sentry.Text.{Text, codes}
use owl_sentry.FilePath.{is_absolute, path_starts_with}
use owl_sentry.I18n.{Lang}
use owl_sentry.Fs.{classify, with_log_dir, FsRules, FsAction}
use owl_sentry.Fs.Rules.{classify-with_log_dir}
use owl_sentry.Config.Types.{DaemonConfig, FsCfg, default_config}
use owl_sentry.Config.Validate.{
  Loaded, ok, err, validate, validate_iff, validate_paths, find_relative, validate_numbers,
  ok-injective, load-IsValid, IsValid, is_language,
}
use owl_sentry.Config.Rules.{load_or_default, Rules}
use owl_sentry.Start.Effects.{All-tasks, All-main}
use owl_sentry.Start.{
  config_of, load_config, with_config, with_rules, main, tasks, Args, Outside, Effect, spawns,
  dispatcher, audit_monitor, fs_monitor, net_monitor, process_monitor, ipc_server, Result, good,
}

-- The arguments of a task are such that its loop waits between two turns, and that its paths do not
-- depend on the working directory.
abbrev pub IsSound : Effect → Type 0
IsSound (spawns (dispatcher n)) = 0 < n
IsSound (spawns (audit_monitor c rules lang)) =
    (0 < c.poll_interval_ms) × (is_absolute c.audit_log ≡ true)
IsSound (spawns (fs_monitor c rules lang)) = All (λ p. is_absolute p ≡ true) c.watch_paths
IsSound (spawns (net_monitor c rules lang)) =
    (0 < c.poll_interval_secs) × (0 < c.port_scan_threshold)
IsSound (spawns (process_monitor n lang)) = 0 < n
IsSound (spawns (ipc_server s)) =
    (is_absolute s.socket_path ≡ true) × (is_language s.language ≡ true)
IsSound _ = Unit

All-watched :
    (paths : List Text)
    → All {A = Text × Text}
        (λ n. is_absolute n.1 ≡ true)
        (map (λ p. (codes "filesystem.watch_paths", p)) paths)
    → All (λ p. is_absolute p ≡ true) paths
All-watched [] h = tt
All-watched (p ∷ paths) h = (h.0, All-watched paths h.1)

default_config-IsValid : IsValid default_config
unfolding default_config is_absolute validate validate_paths find_relative validate_numbers
default_config-IsValid = (validate_iff (λ t. t) default_config).0 refl

config_of-IsValid :
    (o : Outside) (args : Args) (c : DaemonConfig) → config_of o args ≡ ok c → IsValid c
config_of-IsValid o args c h = elim (Bool-cases (o.exists args.config)) [
  | inl e ↦ load-IsValid o.debug_text o.read_to_string o.parse_config args.config c (rw e at h)
  | inr e ↦ subst IsValid (ok-injective _ _ (rw e at h)) default_config-IsValid
]

with_rules-config :
    (d c : DaemonConfig) (l : Loaded Rules) (rules : Rules)
    → with_rules d l ≡ good (c, rules)
    → ok d ≡ ok c
with_rules-config d c (err e) rules h = absurd (cc h)
with_rules-config d c (ok r) rules h = ground arith

with_config-loaded :
    (o : Outside) (path : Text) (l : Loaded DaemonConfig) (c : DaemonConfig) (rules : Rules)
    → with_config o path l ≡ good (c, rules)
    → l ≡ ok c
unfolding with_config
with_config-loaded o path (err e) c rules h = absurd (cc h)
with_config-loaded o path (ok d) c rules h =
    with_rules-config d c (load_or_default o.read_to_string o.parse_rules d.general.rules_path)
      rules h

-- A configuration that is loaded is in order, and so is the default one, which stands for a file that
-- does not exist.
load_config-IsValid :
    (o : Outside) (args : Args) (c : DaemonConfig) (rules : Rules)
    → load_config o args ≡ good (c, rules)
    → IsValid c
unfolding load_config
load_config-IsValid o args c rules h =
    config_of-IsValid o args c (with_config-loaded o args.config (config_of o args) c rules h)

tasks-IsSound : (c : DaemonConfig) (rules : Rules) → IsValid c → All IsSound (tasks c rules)
tasks-IsSound c rules
      (
        language,
        (dir, (socket, (rules_path, (log, last)))),
        watch,
        (buffer, threshold, poll, scan, audit),
      ) =
    All-tasks IsSound c rules _ refl tt buffer (audit, log)
      (All-watched c.filesystem.watch_paths watch) (poll, threshold) scan (socket, language)

-- Whatever the system answers, and whether or not `main` returns an error: every task that it spawns
-- gets intervals, a threshold and a buffer that are not 0, absolute paths and a known language.
pub main-IsSound : (o : Outside) (args : Args) → All IsSound (main o args).effects
main-IsSound o args =
    All-main IsSound
      (record { no_config = tt; valid = tt; aborts = tt; cleans = λ p. tt; warns = tt }) o args
      (λ c rules h. tasks-IsSound c rules (load_config-IsValid o args c rules h))

-- The rules of a monitor for files are some rules with the directory of the daemon's logs.
abbrev SkipsLogs : Text → Effect → Type 0
SkipsLogs dir (spawns (fs_monitor c rules lang)) = (r : FsRules) × (rules ≡ with_log_dir dir r)
SkipsLogs dir _ = Unit

tasks-SkipsLogs :
    (c : DaemonConfig) (rules : Rules) → All (SkipsLogs c.general.log_dir) (tasks c rules)
tasks-SkipsLogs c rules =
    All-tasks (SkipsLogs c.general.log_dir) c rules _ refl tt tt tt (rules.filesystem, refl) tt tt
      tt

same_dir :
    (c d : DaemonConfig) (r s : Rules)
    → ◌≡◌ {A = Result (DaemonConfig × Rules)} (good (c, r)) (good (d, s))
    → c.general.log_dir ≡ d.general.log_dir
same_dir c d r s h = cc

-- If the configuration is loaded with a directory for the logs: no monitor for files that `main`
-- spawns makes an alert of an event below this directory, whatever the rules in their file say.
pub main-ignores_own_logs :
    (o : Outside) (args : Args) (c : DaemonConfig) (loaded : Rules) (cfg : FsCfg) (rules : FsRules)
    (lang : Lang) (action : FsAction) (path : Text)
    → load_config o args ≡ good (c, loaded)
    → In (spawns (fs_monitor cfg rules lang)) (main o args).effects
    → path_starts_with path c.general.log_dir ≡ true
    → classify action path rules lang ≡ none
main-ignores_own_logs o args c loaded cfg rules lang action path h m k =
    let all =
      All-main (SkipsLogs c.general.log_dir)
        (record { no_config = tt; valid = tt; aborts = tt; cleans = λ p. tt; warns = tt }) o args
        (λ d rs e.
          subst (λ dir. All (SkipsLogs dir) (tasks d rs)) (same_dir _ _ _ _ (sym e ∙ h))
            (tasks-SkipsLogs d rs)) in
    let (r, e) = All-In (SkipsLogs c.general.log_dir) _ _ all m in
    rw e (classify-with_log_dir action path c.general.log_dir r lang k)
