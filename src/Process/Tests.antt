-- ===== src/Process/Tests.antt =====
-- The process monitor on concrete processes.
use owl_sentry.Base.{
  ℕ, ◌≡◌, refl, true, Option, none, some, List, [], ◌∷◌, ◌++◌, map, if◌then◌else◌, nat_eq, ◌==◌,
  list_eq, pair_eq, insert,
}
use owl_sentry.Text.{Text, codes, is_whitespace, strip_prefix, ends_with, split_on, trim}
use owl_sentry.Text.Numbers.{digit_value, read_digits, read_nonempty, int_eq, parse_i32, ℤ, pos}
use owl_sentry.Alert.Types.{with_meta, high, critical}
use owl_sentry.I18n.{en}
use owl_sentry.Channel.{emit, alert_of, for_each}
use owl_sentry.Samples.{open_env}
use owl_sentry.Text.Lines.{lines}
use owl_sentry.Process.Reading.{ld_preload_of, ppid_of, read_comm, is_tmp_exec}
use owl_sentry.Process.Monitor.{new_monitor, is_early, scan, run, Sample}
use owl_sentry.Process.Reports.{AllReports, run-AllReports}
use owl_sentry.FilePath.{component_eq, is_absolute, components, is_prefix, path_starts_with}

-- Three processes: one preloads a library, one runs a deleted file of /tmp, and the parent of the
-- third is listed nowhere.
abbrev environ_of : ℤ → Option (List ℕ)
environ_of pid =
    if pid == pos 10 then some (codes "A=1" ++ (0 ∷ codes "LD_PRELOAD= /tmp/x.so")) else none

abbrev exe_of : ℤ → Option Text
exe_of pid = if pid == pos 11 then some (codes "/tmp/y (deleted)") else none

abbrev status_of : ℤ → Option Text
status_of pid =
    if pid == pos 12
    then some (codes "Name: z\nPPid:\t99\n")
    else some (codes "Name: z\nPPid:\t1\n")

abbrev found : Sample
found = record {
  pids = pos 10 ∷ pos 11 ∷ pos 12 ∷ [];
  status = status_of;
  environ = environ_of;
  exe = exe_of;
  comm = λ pid. some (codes "z\n");
  exists_now = λ pid. true;
  pids_again = λ pid. pos 10 ∷ pos 11 ∷ pos 12 ∷ [];
  exists_later = λ pid. true;
}

abbrev as_bytes : List ℕ → Text
as_bytes b = b

titles_of_scan :
    map (λ a. a.severity) (run open_env as_bytes en (found ∷ found ∷ []) new_monitor).out.sent
    ≡ high ∷ high ∷ critical ∷ high ∷ []
unfolding run new_monitor scan ppid_of ld_preload_of is_tmp_exec is_early for_each emit alert_of
    with_meta insert split_on strip_prefix trim is_whitespace ends_with path_starts_with components
    is_absolute is_prefix lines parse_i32 read_digits read_nonempty digit_value read_comm
titles_of_scan = refl

run-AllReports_example :
    AllReports as_bytes
      (found ∷ found ∷ [])
      (run open_env as_bytes en (found ∷ found ∷ []) new_monitor)
run-AllReports_example = run-AllReports open_env as_bytes en (found ∷ found ∷ [])
