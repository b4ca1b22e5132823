-- ===== src/Fs/Tests.antt =====
-- The unit tests of the file monitor, and its theorems at sample inputs.
use owl_sentry.Base.{
  ℕ, ◌≤◌, ◌≡◌, refl, none, some, true, false, List, [], ◌∷◌, arith, length, nat_eq, list_eq,
  pair_eq,
}
use owl_sentry.Text.{
  text_beq, Text, codes, byte_len, is_ascii_digit, to_ascii_lowercase, split_on, after_last,
}
use owl_sentry.I18n.{fr}
use owl_sentry.FilePath.{
  component_eq, components, is_prefix, path_starts_with, file_name, extension,
}
use owl_sentry.Fs.{path_starts_with_any, looks_like_rotated_log, classify, FsRules}
use owl_sentry.Fs.Monitor.{new_monitor, debounce_of, run, EventKind, modify_any, remove_of_file}
use owl_sentry.Fs.Debounce.{IsSpaced}
use owl_sentry.Fs.Spacing.{run-IsSpaced}
use owl_sentry.Fs.Watch.{install, forward, watch_and_run}
use owl_sentry.Samples.{open_env}

abbrev rules : FsRules
rules = record {
  sensitive_paths = codes "/etc/shadow" ∷ codes "/etc/sudoers.d" ∷ [];
  suspicious_extensions = codes "sh" ∷ [];
  suspicious_dirs = codes "/tmp" ∷ [];
  ignore_paths = codes "/var/log/owlsentry" ∷ [];
}

program : Unit {0}
unfolding classify components path_starts_with is_prefix split_on file_name extension after_last
    looks_like_rotated_log path_starts_with_any to_ascii_lowercase is_ascii_digit byte_len
program = tt

rotated :
    (looks_like_rotated_log (codes "/var/log/messages-20260101") ≡ true)
    × (looks_like_rotated_log (codes "/var/log/secure.1") ≡ true)
    × (looks_like_rotated_log (codes "/var/log/messages") ≡ false)
    × (path_starts_with (codes "/etc/sudoers.d/evil") (codes "/etc/sudoers.d") ≡ true)
    × (path_starts_with (codes "/tmpfoo/bin") (codes "/tmp") ≡ false)
unfolding program
rotated = (refl, refl, refl, refl, refl)

abbrev shadow : Text
shadow = codes "/etc/shadow"

abbrev events : List (EventKind × List (Text × ℕ))
events =
    (modify_any, (shadow, 5) ∷ (shadow, 6) ∷ []) ∷ (remove_of_file, (shadow, 9000000000) ∷ []) ∷ []

run-IsSpaced_example :
    IsSpaced (debounce_of 5) (run open_env (debounce_of 5) rules fr events new_monitor).fired
    × (length (run open_env (debounce_of 5) rules fr events new_monitor).out.sent
        ≤ length (run open_env (debounce_of 5) rules fr events new_monitor).fired)
run-IsSpaced_example =
    run-IsSpaced open_env 5 rules fr events
      (6, (omega arith, (omega arith, omega arith)), (9000000000, (omega arith, omega arith), tt))

-- A path that cannot be watched is left out, and an error among the events is dropped; without a watcher
-- there is no monitor.
installed : install true (λ p. text_beq p shadow) (shadow ∷ codes "/gone" ∷ []) ≡ some (shadow ∷ [])
unfolding install
installed = refl

forwarded : forward {A = ℕ} (none ∷ some 3 ∷ none ∷ some 4 ∷ []) ≡ 3 ∷ 4 ∷ []
unfolding forward
forwarded = refl

unwatched : watch_and_run open_env 5 rules fr false (λ p. true) (shadow ∷ []) (λ watched. []) ≡ none
unfolding watch_and_run
unwatched = refl
