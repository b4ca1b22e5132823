-- ===== src/Fs/Monitor.antt =====
-- crates/owlsentry-daemon/src/monitors/fs.rs: `simplify_kind` and the loop of `run`, one path of an
-- event at a time. Instants are in nanoseconds.
use Prim.Native.Nat.{max}
use owl_sentry.Base.{
  ℕ, ◌-◌, ◌*◌, Bool, true, false, Option, none, some, List, [], ◌∷◌, ltb, if◌then◌else◌, length,
  filter, nat_eq, list_eq, pair_eq, lookup, insert,
}
use owl_sentry.Text.{Text}
use owl_sentry.Alert.Types.{DateTime, Alert}
use owl_sentry.I18n.{Lang}
use owl_sentry.Channel.{emit, for_each, Env, Outbox}
use owl_sentry.FilePath.{component_eq, components, Component}
use owl_sentry.Fs.{classify, FsRules, FsAction, create, modify, metadata_change, remove_file}

-- The kinds of the crate `notify` that `simplify_kind` tells apart.
pub data EventKind : Type 0 where
  create_any : EventKind
  modify_metadata : EventKind
  modify_data : EventKind
  modify_any : EventKind
  modify_other : EventKind
  remove_of_file : EventKind
  remove_of_folder : EventKind
  remove_any : EventKind
  remove_other : EventKind
  other_kind : EventKind

unfoldable pub simplify_kind : EventKind → Option FsAction
simplify_kind create_any = some create
simplify_kind modify_metadata = some metadata_change
simplify_kind modify_data = some modify
simplify_kind modify_any = some modify
simplify_kind remove_of_file = some remove_file
simplify_kind remove_any = some remove_file
simplify_kind remove_of_folder = some remove_file
simplify_kind _ = none

abbrev pub Key : Type 0
Key = List Component

-- `last_alert` is keyed by path; `fired` keeps all alerts made, by path and instant, and nothing
-- reads it.
pub record Monitor : Type 0 where
  pub last_alert : List (Key × ℕ)
  pub fired : List (Key × ℕ)
  pub out : Outbox

unfoldable pub new_monitor : Monitor
new_monitor = record { last_alert = []; fired = []; out = record { sent = []; is_open = true } }

-- The debounce window of `cfg.debounce_secs`
abbrev pub debounce_of : ℕ → ℕ
debounce_of secs = max secs 1 * 1000000000

-- An alert of this path came less than `debounce` ago.
unfoldable pub is_muted : ℕ → Key → ℕ → List (Key × ℕ) → Bool
is_muted debounce key now last_alert = elim (lookup key last_alert) [
  | none ↦ false
  | some prev ↦ ltb (now - prev) debounce
]

unfoldable pub prune : ℕ → ℕ → List (Key × ℕ) → List (Key × ℕ)
prune debounce now last_alert =
    if ltb 10000 (length last_alert)
    then filter (λ e. ltb (now - e.1) debounce) last_alert
    else last_alert

module _ (env : Env) (debounce : ℕ) (rules : FsRules) (lang : Lang) where
  unfoldable pub fire : Key → ℕ → (DateTime → Alert) → Monitor → Monitor
  unfolding prune
  fire key now make m = record {
    last_alert = prune debounce now (insert key now m.last_alert);
    fired = (key, now) ∷ m.fired;
    out = emit env make m.out;
  }

  -- One path of an event, looked at at the instant `now`
  unfoldable pub on_path : FsAction → Text × ℕ → Monitor → Monitor
  unfolding fire is_muted
  on_path action (path, now) m =
      if is_muted debounce (components path) now m.last_alert
      then m
      else elim (classify action path rules lang) [
        | none ↦ m
        | some make ↦ fire (components path) now make m
      ]

  -- One event, with the paths and the instants at which they are looked at
  unfoldable pub on_fs_event : EventKind × List (Text × ℕ) → Monitor → Monitor
  unfolding on_path simplify_kind
  on_fs_event (kind, paths) m = elim (simplify_kind kind) [
    | none ↦ m
    | some action ↦ for_each (λ s. s.out) (on_path action) paths m
  ]

  -- The loop, over the events that the watcher delivers
  unfoldable pub run : List (EventKind × List (Text × ℕ)) → Monitor → Monitor
  unfolding on_fs_event
  run events m = for_each (λ s. s.out) on_fs_event events m
