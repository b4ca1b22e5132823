-- ===== src/Process/Reports.antt =====
-- What the process monitor reports.
use owl_sentry.Base.{
  [], ◌∷◌, In, ◌⊎◌, insert_set, sym, ap, ◌∙◌, ℕ, ◌≡◌, refl, inl, inr, Bool, true, false, not, ◌&&◌,
  ◌||◌, some, List, arith, if◌then◌else◌, Bool-cases, Option-cases, ◌>>=◌, All, nat_eq, list_eq,
  pair_eq, contains, lookup, insert,
}
use owl_sentry.Text.{Text, codes, ends_with}
use owl_sentry.Text.Numbers.{int_eq, show_int, ℤ}
use owl_sentry.Alert.Types.{critical, Severity, with_meta, Alert, high, process}
use owl_sentry.I18n.{Lang}
use owl_sentry.Channel.{emit-All, alert_of, for_each, for_each_In, Env}
use owl_sentry.Process.Reading.{ppid_of, ld_preload_of, read_comm, is_tmp_exec}
use owl_sentry.Process.Monitor.{
  new_monitor, ppids, is_early, clean_up, check_preload, deleted_alert, tmp_alert, check_exe,
  check_pid, check_parent, scan, run, Sample, Monitor,
}

-- Why a turn may report the process of a number: one that is listed preloads a library, or runs a
-- file that is deleted or in a temporary directory; or one that is not listed, neither at the start
-- of the turn nor when it is looked for, is there, and is the parent of a process that is listed.
abbrev pub Grounds : (List ℕ → Text) → Sample → ℤ → Severity → Type 0
Grounds from_utf8_lossy sample pid severity =
    ((severity ≡ high)
      × In pid sample.pids
      × (value : Text) × (sample.environ pid >>= ld_preload_of from_utf8_lossy ≡ some value))
    ⊎ ((severity ≡ high)
        × In pid sample.pids
        × (exe : Text) × (sample.exe pid ≡ some exe)
        × ((ends_with (codes " (deleted)") exe || is_tmp_exec exe) ≡ true))
    ⊎ ((severity ≡ critical)
        × ((is_early pid || contains pid sample.pids) ≡ false)
        × ((sample.exists_now pid && not (contains pid (sample.pids_again pid))) ≡ true)
        × (child : ℤ) × In child sample.pids
        × (ppid_of (sample.status child) ≡ some pid))

-- An alert of a process: of that category, with the number of a process that one of the samples
-- gives grounds to report with this severity.
abbrev pub IsReport : (List ℕ → Text) → List Sample → Alert → Type 0
IsReport from_utf8_lossy samples a =
    (a.category ≡ process)
    × (sample : Sample) × In sample samples
    × (pid : ℤ) × (lookup (codes "pid") a.metadata ≡ some (show_int pid))
    × Grounds from_utf8_lossy sample pid a.severity

abbrev pub AllReports : (List ℕ → Text) → List Sample → Monitor → Type 0
AllReports from_utf8_lossy samples m = All (IsReport from_utf8_lossy samples) m.out.sent

In-insert_set : (x a : ℤ) (xs : List ℤ) → In x (insert_set a xs) → (x ≡ a) ⊎ In x xs
In-insert_set x a xs m = elim (Bool-cases (contains a xs)) [
  | inl e ↦ inr (rw e at m)
  | inr e ↦ rw e at m
]

ppids_sound :
    (sample : Sample) (pids : List ℤ) (ppid : ℤ)
    → In ppid (ppids sample pids)
    → (child : ℤ) × In child pids × (ppid_of (sample.status child) ≡ some ppid)
unfolding ppids
ppids_sound sample [] ppid m = absurd m
ppids_sound sample (pid ∷ pids) ppid m = elim (Option-cases (ppid_of (sample.status pid))) [
  | inl n ↦
      let skip : ppids sample (pid ∷ pids) ≡ ppids sample pids = rw (ppids, n) refl in
      let (child, k, e) = ppids_sound sample pids ppid (rw skip at m) in (child, inr k, e)
  | inr (q, e) ↦
      let more : ppids sample (pid ∷ pids) ≡ insert_set q (ppids sample pids) =
        rw (ppids, e) refl in
      elim (In-insert_set ppid q (ppids sample pids) (rw more at m)) [
        | inl same ↦ (pid, inl refl, e ∙ ap some (sym same))
        | inr k ↦ let (child, l, f) = ppids_sound sample pids ppid k in (child, inr l, f)
      ]
]

either_branch :
    (P : Monitor → Type 0) (b : Bool) (s t : Monitor) → P s → P t → P (if b then s else t)
either_branch P true s t h k = h
either_branch P false s t h k = k

module _ (env : Env) (from_utf8_lossy : List ℕ → Text) (lang : Lang) (samples : List Sample)
    (sample : Sample) (here : In sample samples) where
  check_preload-AllReports :
      (pid : ℤ) (m : Monitor)
      → In pid sample.pids
      → AllReports from_utf8_lossy samples m
      → AllReports from_utf8_lossy samples (check_preload env from_utf8_lossy lang sample pid m)
  unfolding check_preload with_meta alert_of insert lookup
  check_preload-AllReports pid m k h = elim (Bool-cases (contains pid m.reported_preload)) [
    | inl e ↦ rw e h
    | inr e ↦ elim (Option-cases (sample.environ pid >>= ld_preload_of from_utf8_lossy)) [
      | inl n ↦ rw (e, n) h
      | inr (v, f) ↦
          rw (e, f)
            (emit-All (IsReport from_utf8_lossy samples) env _ m.out
              (λ now. (refl, sample, here, pid, refl, inl (refl, k, v, f))) h)
    ]
  ]

  check_exe-AllReports :
      (pid : ℤ) (m : Monitor)
      → In pid sample.pids
      → AllReports from_utf8_lossy samples m
      → AllReports from_utf8_lossy samples (check_exe env from_utf8_lossy lang sample pid m)
  unfolding check_exe deleted_alert tmp_alert with_meta alert_of insert lookup
  check_exe-AllReports pid m k h = elim (Option-cases (sample.exe pid)) [
    | inl n ↦ rw (check_exe, n) h
    | inr (exe, f) ↦
        let gone = ends_with (codes " (deleted)") exe in
        elim (Bool-cases (gone && not (contains pid m.reported_deleted))) [
          | inl d ↦
              let why : (gone || is_tmp_exec exe) ≡ true = ground arith in
              rw (check_exe, f, d)
                (emit-All (IsReport from_utf8_lossy samples) env
                  (deleted_alert env from_utf8_lossy lang pid (read_comm (sample.comm pid)) exe)
                  m.out (λ now. (refl, sample, here, pid, refl, inr (inl (refl, k, exe, f, why))))
                  h)
          | inr d ↦ elim (Bool-cases (is_tmp_exec exe && not (contains pid m.reported_tmp))) [
            | inl t ↦
                let why : (gone || is_tmp_exec exe) ≡ true = ground arith in
                rw (check_exe, f, d, t)
                  (emit-All (IsReport from_utf8_lossy samples) env
                    (tmp_alert env from_utf8_lossy lang pid (read_comm (sample.comm pid)) exe) m.out
                    (λ now. (refl, sample, here, pid, refl, inr (inl (refl, k, exe, f, why)))) h)
            | inr t ↦ rw (check_exe, f, d, t) h
          ]
        ]
  ]

  check_pid-AllReports :
      (pid : ℤ)
      → In pid sample.pids
      → (m : Monitor) → AllReports from_utf8_lossy samples m
      → AllReports from_utf8_lossy samples (check_pid env from_utf8_lossy lang sample pid m)
  unfolding check_pid
  check_pid-AllReports pid k m h =
      let told = check_preload env from_utf8_lossy lang sample pid m in
      let r = check_preload-AllReports pid m k h in
      elim (Bool-cases told.out.is_open) [
        | inl e ↦ rw e (check_exe-AllReports pid told k r)
        | inr e ↦ rw e r
      ]

  check_parent-AllReports :
      (ppid : ℤ)
      → In ppid (ppids sample sample.pids)
      → (m : Monitor) → AllReports from_utf8_lossy samples m
      → AllReports from_utf8_lossy samples (check_parent env from_utf8_lossy lang sample ppid m)
  unfolding check_parent with_meta alert_of insert lookup
  check_parent-AllReports ppid p m h =
      elim (Bool-cases
        (is_early ppid || contains ppid sample.pids || contains ppid m.reported_hidden)) [
          | inl e ↦ rw e h
          | inr e ↦
              elim (Bool-cases
                (sample.exists_now ppid && not (contains ppid (sample.pids_again ppid)))) [
                  | inl k ↦
                      let late : (is_early ppid || contains ppid sample.pids) ≡ false =
                        ground arith in
                      let (child, l, q) = ppids_sound sample sample.pids ppid p in
                      rw (e, k)
                        (emit-All (IsReport from_utf8_lossy samples) env _ m.out
                          (λ now. (
                            refl,
                            sample,
                            here,
                            ppid,
                            refl,
                            inr (inr (refl, late, k, child, l, q)),
                          ))
                          h)
                  | inr k ↦ rw (e, k) h
                ]
        ]

  scan-AllReports :
      (m : Monitor)
      → AllReports from_utf8_lossy samples m
      → AllReports from_utf8_lossy samples (scan env from_utf8_lossy lang sample m)
  unfolding scan clean_up
  scan-AllReports m h =
      let walked =
        for_each (λ s. s.out) (check_pid env from_utf8_lossy lang sample) sample.pids m in
      let w =
        for_each_In (λ s. s.out) (check_pid env from_utf8_lossy lang sample)
          (AllReports from_utf8_lossy samples) sample.pids check_pid-AllReports m h in
      let p =
        for_each_In (λ s. s.out) (check_parent env from_utf8_lossy lang sample)
          (AllReports from_utf8_lossy samples) (ppids sample sample.pids) check_parent-AllReports
          walked w in
      let found = either_branch (AllReports from_utf8_lossy samples) walked.out.is_open _ _ p w in
      either_branch (AllReports from_utf8_lossy samples) _ _ _ found found

module _ (env : Env) (from_utf8_lossy : List ℕ → Text) (lang : Lang) where
  -- However many turns the monitor makes, each alert that it has sent is of the category of
  -- processes and gives in its metadata the number of a process that the sample of one of the turns
  -- shows to be suspicious: it is listed and preloads a library, or runs a file that is deleted or in
  -- a temporary directory, and the alert is high; or it is a parent of a listed process, is there
  -- though it is not listed, and the alert is critical.
  pub run-AllReports :
      (samples : List Sample)
      → AllReports from_utf8_lossy samples (run env from_utf8_lossy lang samples new_monitor)
  unfolding run new_monitor
  run-AllReports samples =
      for_each_In (λ s. s.out) (scan env from_utf8_lossy lang) (AllReports from_utf8_lossy samples)
        samples (λ sample m s h. scan-AllReports env from_utf8_lossy lang samples sample m s h)
        new_monitor tt
