-- ===== src/Fs/Spacing.antt =====
-- The debounce over whole runs of the loop.
use owl_sentry.Base.{
  ℕ, ◌≤◌, ◌<◌, inl, inr, List, [], ◌∷◌, arith, Option-cases, length, nat_eq, list_eq, pair_eq,
}
use owl_sentry.Text.{Text}
use owl_sentry.I18n.{Lang}
use owl_sentry.Channel.{for_each, for_each-cons, Env}
use owl_sentry.FilePath.{component_eq}
use owl_sentry.Fs.{FsRules, FsAction}
use owl_sentry.Fs.Monitor.{
  simplify_kind, new_monitor, debounce_of, on_path, on_fs_event, run, Monitor, EventKind,
}
use owl_sentry.Fs.Debounce.{IsSpaced, Inv-later, on_path-Inv, Inv}

-- Instants of paths that do not go back, from `now` to `later`.
abbrev pub PathsBetween : ℕ → ℕ → List (Text × ℕ) → Type 0
PathsBetween now later [] = now ≤ later
PathsBetween now later (p ∷ ps) = (now ≤ p.1) × PathsBetween p.1 later ps

-- Events one after another, on a clock that does not go back.
abbrev pub IsChronological : ℕ → List (EventKind × List (Text × ℕ)) → Type 0
IsChronological now [] = Unit
IsChronological now (e ∷ es) = (later : ℕ) × PathsBetween now later e.1 × IsChronological later es

PathsBetween-le : (now later : ℕ) (ps : List (Text × ℕ)) → PathsBetween now later ps → now ≤ later
PathsBetween-le now later [] h = h
PathsBetween-le now later (p ∷ ps) h = omega (arith, PathsBetween-le p.1 later ps h.1)

module _ (env : Env) (debounce : ℕ) (rules : FsRules) (lang : Lang) (pos : 0 < debounce) where
  paths-Inv :
      (action : FsAction) (now later : ℕ) (ps : List (Text × ℕ)) (m : Monitor)
      → PathsBetween now later ps
      → Inv debounce now m
      → Inv debounce later (for_each (λ s. s.out) (on_path env debounce rules lang action) ps m)
  unfolding for_each
  paths-Inv action now later [] m h v = Inv-later debounce now later h v
  paths-Inv action now later (p ∷ ps) m h v =
      for_each-cons (λ s. s.out) (on_path env debounce rules lang action) (Inv debounce later) p ps
        m
        (paths-Inv action p.1 later ps (on_path env debounce rules lang action p m) h.1 (
          on_path-Inv debounce env rules lang action p.0 p.1 m pos
            (Inv-later debounce now p.1 h.0 v)))
        (Inv-later debounce now later (PathsBetween-le now later (p ∷ ps) h) v)

  event-Inv :
      (now later : ℕ) (e : EventKind × List (Text × ℕ)) (m : Monitor)
      → PathsBetween now later e.1
      → Inv debounce now m
      → Inv debounce later (on_fs_event env debounce rules lang e m)
  unfolding on_fs_event
  event-Inv now later (kind, ps) m h v = elim (Option-cases (simplify_kind kind)) [
    | inl e ↦ rw (e, on_fs_event) (Inv-later debounce now later (PathsBetween-le now later ps h) v)
    | inr (action, e) ↦ rw (e, on_fs_event) (paths-Inv action now later ps m h v)
  ]

  run-Inv :
      (now : ℕ) (es : List (EventKind × List (Text × ℕ))) (m : Monitor)
      → IsChronological now es
      → Inv debounce now m
      → (later : ℕ) × Inv debounce later (run env debounce rules lang es m)
  unfolding run for_each
  run-Inv now [] m h v = (now, v)
  run-Inv now (e ∷ es) m (later, h, k) v =
      for_each-cons (λ s. s.out) (on_fs_event env debounce rules lang)
        (λ s. (t : ℕ) × Inv debounce t s) e es m
        (run-Inv later es (on_fs_event env debounce rules lang e m) k (event-Inv now later e m h v))
        (now, v)

-- However many events the monitor works through, on a clock that does not go back: any two alerts
-- of one path are at least the debounce time apart, and every alert sent is counted among these.
pub run-IsSpaced :
    (env : Env) (secs : ℕ) (rules : FsRules) (lang : Lang) (es : List (EventKind × List (Text × ℕ)))
    → IsChronological 0 es
    → IsSpaced (debounce_of secs) (run env (debounce_of secs) rules lang es new_monitor).fired
      × (length (run env (debounce_of secs) rules lang es new_monitor).out.sent
          ≤ length (run env (debounce_of secs) rules lang es new_monitor).fired)
unfolding new_monitor
run-IsSpaced env secs rules lang es h =
    let start : Inv (debounce_of secs) 0 new_monitor = record {
      spaced = tt;
      remembered = tt;
      past = tt;
      counted = omega arith;
    } in
    let (later, v) =
      run-Inv env (debounce_of secs) rules lang (omega arith) 0 es new_monitor h start in
    (v.spaced, v.counted)
