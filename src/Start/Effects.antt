-- ===== src/Start/Effects.antt =====
-- Predicates on all effects of the start.
use owl_sentry.Base.{
  ◌≡◌, refl, inl, inr, Bool, true, false, Bool-cases, [], ◌∷◌, if◌then◌else◌, All, All-append,
  nat_eq, list_eq, pair_eq,
}
use owl_sentry.Text.{Text}
use owl_sentry.I18n.{Lang, from_code}
use owl_sentry.Fs.{with_log_dir}
use owl_sentry.Config.Types.{DaemonConfig}
use owl_sentry.Config.Rules.{Rules}
use owl_sentry.Start.{
  server_of, load_config, main, tasks, monitors, when, after_init, after_loading, warning, Args,
  Outside, Effect, spawns, warns_no_config, says_valid, warns_no_audit, aborts_ipc, removes,
  warns_socket, Cleanup, removed, missing, refused, clean_socket, Task, dispatcher, audit_monitor,
  fs_monitor, net_monitor, process_monitor, ipc_server, Result, good, bad,
}

module _ (P : Effect → Type 0) where
  All-when : (enabled : Bool) (t : Task) → P (spawns t) → All P (when enabled t)
  All-when true t h = (h, tt)
  All-when false t h = tt

  audit_or_warning :
      (enabled : Bool) (t : Task)
      → P warns_no_audit
      → P (spawns t)
      → All P (if enabled then spawns t ∷ [] else warns_no_audit ∷ [])
  audit_or_warning true t h k = (k, tt)
  audit_or_warning false t h k = (h, tt)

  -- A predicate on each of the tasks, in the order in which they are spawned
  pub All-tasks :
      (c : DaemonConfig) (rules : Rules) (lang : Lang)
      → from_code c.general.language ≡ lang
      → P warns_no_audit
      → P (spawns (dispatcher c.general.recent_buffer))
      → P (spawns (audit_monitor c.audit rules.selinux lang))
      → P (spawns (fs_monitor c.filesystem (with_log_dir c.general.log_dir rules.filesystem) lang))
      → P (spawns (net_monitor c.network rules.network lang))
      → P (spawns (process_monitor c.process.scan_interval_secs lang))
      → P (spawns (ipc_server (server_of c.general)))
      → All P (tasks c rules)
  unfolding tasks monitors
  All-tasks c rules lang l warns d audit fs net proc ipc = rw l (
    d,
    All-append P (monitors c rules lang) _
        (All-append P _ _
          (All-append P _ _
            (All-append P _ _ (audit_or_warning c.audit.enabled _ warns audit)
              (All-when c.filesystem.enabled _ fs))
            (All-when c.network.enabled _ net))
          (All-when c.process.enabled _ proc))
        (ipc, tt),
  )

-- What holds of every task that is started, and of the effects beside the tasks, holds of all effects
-- of `main`.
pub record IsTrivial (P : Effect → Type 0) : Type 0 where
  pub no_config : P warns_no_config
  pub valid : P says_valid
  pub aborts : P aborts_ipc
  pub cleans : (path : Text) → P (removes path)
  pub warns : P warns_socket

module _ (P : Effect → Type 0) (t : IsTrivial P) (o : Outside) (args : Args) where
  All-warning : (b : Bool) → All P (if b then [] else warns_no_config ∷ [])
  All-warning true = tt
  All-warning false = (t.no_config, tt)

  All-clean_socket : (r : Cleanup) (path : Text) → All P (clean_socket r path)
  All-clean_socket removed path = (t.cleans path, tt)
  All-clean_socket missing path = tt
  All-clean_socket refused path = (t.warns, tt)

  All-after_init :
      (c : DaemonConfig) (rules : Rules) (r : Result Text)
      → All P (tasks c rules)
      → All P (after_init o c rules r).effects
  All-after_init c rules (bad e) h = tt
  All-after_init c rules (good filter) h = elim (Bool-cases o.sigterm_ok) [
    | inl e ↦ rw e (All-append P (tasks c rules) _ h (t.aborts, All-clean_socket _ _))
    | inr e ↦ rw e h
  ]

  All-after_loading :
      (r : Result (DaemonConfig × Rules))
      → ((c : DaemonConfig) (rules : Rules) → r ≡ good (c, rules) → All P (tasks c rules))
      → All P (after_loading o args r).effects
  All-after_loading (bad e) h = tt
  All-after_loading (good (c, rules)) h = elim (Bool-cases args.check_config) [
    | inl e ↦ rw e (t.valid, tt)
    | inr e ↦ rw e (All-after_init c rules _ (h c rules refl))
  ]

  pub All-main :
      ((c : DaemonConfig) (rules : Rules)
        → load_config o args ≡ good (c, rules)
        → All P (tasks c rules))
      → All P (main o args).effects
  unfolding main
  All-main h =
      All-append P (warning o args) _ (All-warning (o.exists args.config))
        (All-after_loading (load_config o args) h)
