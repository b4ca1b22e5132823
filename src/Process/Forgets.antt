-- ===== src/Process/Forgets.antt =====
-- What the process monitor forgets at the end of a turn.
use mathlib.Core.Bool.{false≢true}
use owl_sentry.Base.{
  ℕ, ◌≡◌, inl, inr, true, ◌||◌, List, arith, if◌then◌else◌, Bool-cases, nat_eq, list_eq, pair_eq,
  contains, contains-filter,
}
use owl_sentry.Text.{Text}
use owl_sentry.Text.Numbers.{int_eq, ℤ}
use owl_sentry.I18n.{Lang}
use owl_sentry.Channel.{for_each, Env}
use owl_sentry.Process.Monitor.{ppids, clean_up, check_pid, check_parent, scan, Sample, Monitor}

-- What `scan-Forgets` says of the state after a turn.
abbrev pub Forgets : Sample → ℤ → Monitor → Type 0
Forgets sample pid after =
    ((contains pid after.reported_preload
          || contains pid after.reported_deleted
          || contains pid after.reported_tmp)
        ≡ true
      → contains pid sample.pids ≡ true)
    × (contains pid after.reported_hidden ≡ true → sample.exists_later pid ≡ true)

cleaned :
    (s : Monitor) (sample : Sample) (pid : ℤ)
    → (if s.out.is_open then clean_up sample s else s).out.is_open ≡ true
    → Forgets sample pid (if s.out.is_open then clean_up sample s else s)
unfolding clean_up
cleaned s sample pid h = elim (Bool-cases s.out.is_open) [
  | inl e ↦ rw e (
      (
        ground (
          arith,
          contains-filter (λ p. contains p sample.pids) pid s.reported_preload,
          contains-filter (λ p. contains p sample.pids) pid s.reported_deleted,
          contains-filter (λ p. contains p sample.pids) pid s.reported_tmp,
        ),
        ground (arith, contains-filter sample.exists_later pid s.reported_hidden),
      ))
  | inr e ↦ absurd (false≢true (rw e at h))
]

module _ (env : Env) (from_utf8_lossy : List ℕ → Text) (lang : Lang) where
  -- After a turn that the monitor survives, the processes that it remembers as reported are among
  -- those listed in this turn, and the hidden ones that it remembers are still there; so a number
  -- that is used again can be reported again.
  pub scan-Forgets :
      (sample : Sample) (pid : ℤ) (m : Monitor)
      → (scan env from_utf8_lossy lang sample m).out.is_open ≡ true
      → Forgets sample pid (scan env from_utf8_lossy lang sample m)
  unfolding scan clean_up
  scan-Forgets sample pid m h =
      let walked =
        for_each (λ s. s.out) (check_pid env from_utf8_lossy lang sample) sample.pids m in
      let searched =
        for_each (λ s. s.out) (check_parent env from_utf8_lossy lang sample)
          (ppids sample sample.pids) walked in
      cleaned (if walked.out.is_open then searched else walked) sample pid h
