-- ===== src/Fs/Watch.antt =====
-- crates/owlsentry-daemon/src/monitors/fs.rs: the start of `run`, which installs the watcher, and the
-- callback that hands its events over. The crate `notify` is outside: whether it can make a watcher,
-- whether it can watch a path, and what it delivers are arguments.
use owl_sentry.Base.{
  ℕ, Bool, Option, none, some, List, [], ◌∷◌, if◌then◌else◌, filter, nat_eq, list_eq, pair_eq,
}
use owl_sentry.Text.{Text}
use owl_sentry.I18n.{Lang}
use owl_sentry.Channel.{Env}
use owl_sentry.Fs.{FsRules}
use owl_sentry.Fs.Monitor.{debounce_of, new_monitor, run, Monitor, EventKind}

-- `recommended_watcher`, then `watch` on each path of `cfg.watch_paths`: a path that cannot be watched is
-- only logged, but without a watcher there is no monitor.
unfoldable pub install : (creates : Bool) → (Text → Bool) → List Text → Option (List Text)
install creates watches paths = if creates then some (filter watches paths) else none

-- The callback: an event goes into the channel, an error is dropped.
unfoldable pub forward : {A : Type 0} → List (Option A) → List A
forward [] = []
forward (none ∷ results) = forward results
forward (some event ∷ results) = event ∷ forward results

-- `run`, with the paths that it watches, over what the watcher reports of them
unfoldable pub watch_and_run :
    (env : Env) (debounce_secs : ℕ) (rules : FsRules) (lang : Lang) (creates : Bool)
    → (Text → Bool)
    → List Text
    → (List Text → List (Option (EventKind × List (Text × ℕ))))
    → Option Monitor
unfolding install forward
watch_and_run env debounce_secs rules lang creates watches paths reports =
    elim (install creates watches paths) [
      | none ↦ none
      | some watched ↦
          some
            (run env (debounce_of debounce_secs) rules lang (forward (reports watched)) new_monitor)
    ]
