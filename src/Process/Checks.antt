-- ===== src/Process/Checks.antt =====
-- What single checks of the process monitor report.
use owl_sentry.Base.{
  ℕ, ◌≡◌, refl, ◌∙◌, inl, inr, false, not, ◌&&◌, ◌||◌, some, List, [], ◌∷◌, ◌++◌, map, arith,
  Bool-cases, Option-cases, In, nat_eq, ◌==◌, list_eq, pair_eq, contains, contains-insert_set,
}
use owl_sentry.Text.{Text, codes, strip_prefix, is_empty, trim}
use owl_sentry.Text.Laws.{strip_prefix_sound}
use owl_sentry.Text.Numbers.{int_eq, ℤ}
use owl_sentry.I18n.{Lang}
use owl_sentry.Channel.{Env}
use owl_sentry.Process.Reading.{variables, preload_value, first_some, ld_preload_of}
use owl_sentry.Process.Monitor.{is_early, check_preload, check_exe, check_parent, Sample, Monitor}

-- A variable of the environment that sets LD_PRELOAD to a value which is not blank.
abbrev pub Sets : Text → Text → Type 0
Sets v var =
    (value : Text) × (var ≡ codes "LD_PRELOAD=" ++ value) × (trim value ≡ v) × (is_empty v ≡ false)

preload_value_sound : (var v : Text) → preload_value var ≡ some v → Sets v var
unfolding preload_value
preload_value_sound var v h = elim (Option-cases (strip_prefix (codes "LD_PRELOAD=") var)) [
  | inl e ↦ absurd (ground arith)
  | inr (value, e) ↦ elim (Bool-cases (is_empty (trim value))) [
    | inl b ↦ absurd (ground arith)
    | inr b ↦
        let same : trim value ≡ v = ground arith in
        (value, strip_prefix_sound (codes "LD_PRELOAD=") var value e, same, rw (← same) b)
  ]
]

first_preload :
    (f : List ℕ → Text) (vars : List (List ℕ)) (v : Text)
    → first_some (map (λ var. preload_value (f var)) vars) ≡ some v
    → (var : List ℕ) × In var vars × Sets v (f var)
unfolding first_some
first_preload f [] v h = absurd (ground arith)
first_preload f (var ∷ vars) v h = elim (Option-cases (preload_value (f var))) [
  | inl e ↦ let r = first_preload f vars v (rw e at h) in (r.0, inr r.1, r.2)
  | inr (w, e) ↦ (var, inl refl, preload_value_sound (f var) v (e ∙ (rw e at h)))
]

-- The value found in an environment is the trimmed value, which is not blank, of one of its variables
-- LD_PRELOAD.
pub ld_preload_of_sound :
    (from_utf8_lossy : List ℕ → Text) (environ : List ℕ) (v : Text)
    → ld_preload_of from_utf8_lossy environ ≡ some v
    → (var : List ℕ) × In var (variables environ) × Sets v (from_utf8_lossy var)
unfolding ld_preload_of
ld_preload_of_sound from_utf8_lossy environ v h =
    first_preload from_utf8_lossy (variables environ) v h

module _ (env : Env) (from_utf8_lossy : List ℕ → Text) (lang : Lang) where
  -- A look at a parent makes it reported exactly if it is later than the first two processes, not
  -- listed, neither at the start of the turn nor now, and there nevertheless; nothing else changes in
  -- the set of hidden processes.
  pub check_parent-reports :
      (sample : Sample) (ppid other : ℤ) (m : Monitor)
      → contains other (check_parent env from_utf8_lossy lang sample ppid m).reported_hidden ≡ (
          contains other m.reported_hidden
          || (other == ppid
              && not (is_early ppid)
              && not (contains ppid sample.pids)
              && sample.exists_now ppid
              && not (contains ppid (sample.pids_again ppid))))
  unfolding check_parent
  check_parent-reports sample ppid other m = ground (arith, int_eq.beq_iff other ppid)

  -- Looked at again, a process makes no second alert of LD_PRELOAD; of its executable, the second
  -- look may make the alert of a temporary directory after that of a deleted file, and the third none.
  pub check_settles :
      (sample : Sample) (pid : ℤ) (m : Monitor)
      → let preload = check_preload env from_utf8_lossy lang sample pid in
        let exe = check_exe env from_utf8_lossy lang sample pid in
        ((preload (preload m)).out ≡ (preload m).out)
        × ((exe (exe (exe m))).out ≡ (exe (exe m)).out)
  unfolding check_preload check_exe
  check_settles sample pid m = ground (arith, contains-insert_set pid pid m.reported_preload)
