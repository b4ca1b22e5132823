-- ===== src/Audit/Rotation.antt =====
-- crates/owlsentry-daemon/src/monitors/audit.rs, `run`: a log that is turned over while the loop sleeps
-- behind its end. The old file is not read again.
use owl_sentry.Base.{
  ℕ, ◌≡◌, refl, sym, ◌∙◌, ◌≢◌, true, ◌||◌, not, Option, some, List, [], ◌++◌, nat_eq, ◌==◌, list_eq,
  pair_eq, ltb, eq_refl, ne_false,
}
use owl_sentry.Text.{Text}
use owl_sentry.I18n.{Lang}
use owl_sentry.Channel.{Env}
use owl_sentry.Audit.Monitor.{on_reading, SelinuxRules}
use owl_sentry.Audit.Tail.{
  unread, chunks, has_turned, next_phase, as_reading, take_in, World, reading, sleeping, opening,
  looks, opens, appends, turns, Reach, here, next,
}
use owl_sentry.Audit.Exact.{chunks-append_met}

module _ (utf8 : List ℕ → Option Text) (env : Env) (rules : SelinuxRules) (lang : Lang) where
  -- Whatever is appended to the log while the loop sleeps behind its end is lost if the log is turned
  -- over before the loop looks again: there is a run in which those bytes stand in the old file, the
  -- reader is at the start of the new one, which is empty, and nothing has been read.
  pub sleep_loses :
      (w : World) (bytes : List ℕ) (j : ℕ)
      → w.follower.is_running ≡ true
      → w.phase ≡ sleeping
      → w.named ≡ some w.opened
      → w.follower.ino ≡ w.opened
      → j ≢ w.opened
      → (u : World) × Reach utf8 env rules lang w u
        × (u.contents w.opened ≡ w.contents w.opened ++ bytes)
        × (u.written ≡ w.written ++ bytes)
        × (chunks u.acts ≡ chunks w.acts)
        × (u.opened ≡ j)
        × (u.position ≡ 0)
        × (u.phase ≡ reading)
        × (unread u ≡ [])
  unfolding take_in as_reading on_reading has_turned
  sleep_loses w bytes j runs sleeps named known new =
      let kept = ne_false w.opened j (λ e. new (sym e)) in
      let moved = ne_false j w.follower.ino (λ e. new (e ∙ known)) in
      let steps =
        next (next (next here (appends w.opened bytes)) (turns j new)) (looks j runs sleeps refl) in
      let opening_now : next_phase (not (j == w.follower.ino) || ltb 0 w.position) j 0
          ≡ opening j 0 =
        rw moved refl in
      (
        _,
        next steps (opens j 0 j runs (rw (eq_refl j) opening_now) refl),
        rw (kept, eq_refl w.opened) refl,
        refl,
        chunks-append_met w.acts _,
        refl,
        refl,
        refl,
        rw (eq_refl j) refl,
      )
