-- ===== src/Fs/Rules.antt =====
-- Which events on files make alerts, and what these say.
use mathlib.Core.Bool.{false≢true}
use mathlib.Core.Option.{some-injective}
use mathlib.Core.Path.{subst}
use owl_sentry.Base.{
  ◌≡◌, refl, sym, ◌∙◌, ◌↔◌, inl, inr, Bool, true, false, not, ◌&&◌, ◌||◌, Option, none, some, List,
  [], ◌∷◌, ◌++◌, arith, Bool-cases, or_default, any, ◌==◌, nat_eq, list_beq_iff, list_eq, pair_eq,
  contains, lookup, insert,
}
use owl_sentry.Text.{Text, codes, to_ascii_lowercase, Mentions}
use owl_sentry.Text.Laws.{Mentions-format}
use owl_sentry.Alert.Types.{with_meta, DateTime, Alert, critical, filesystem}
use owl_sentry.I18n.{Lang, fr, en}
use owl_sentry.Messages.Files.{sensitive_file_changed, suspicious_file_created, log_deleted}
use owl_sentry.Channel.{alert_of}
use owl_sentry.FilePath.{component_eq, components, path_starts_with, extension}
use owl_sentry.Fs.{
  is_create, is_remove, path_starts_with_any, looks_like_rotated_log, sensitive_severity,
  sensitive_alert, log_alert, suspicious_alert, classify, with_log_dir, FsRules, FsAction, create,
  modify, metadata_change, remove_file,
}

any-append {ℓ} :
    {A : Type ℓ} (p : A → Bool) (xs ys : List A) → any p (xs ++ ys) ≡ (any p xs || any p ys)
any-append p [] ys = refl
any-append p (x ∷ xs) ys = ground (arith, any-append p xs ys)

same-any :
    (path log_dir : Text) (ps : List Text)
    → any (λ p. components log_dir == components p) ps ≡ true
    → path_starts_with path log_dir ≡ true
    → path_starts_with_any path ps ≡ true
unfolding path_starts_with_any path_starts_with
same-any path log_dir [] h k = cc
same-any path log_dir (p ∷ ps) h k = elim (Bool-cases (components log_dir == components p)) [
  | inl e ↦ let same = (list_beq_iff (components log_dir) (components p)).0 e in rw (← same, k) refl
  | inr e ↦ ground (arith, same-any path log_dir ps)
]

-- No event below the directory of the daemon's own logs makes an alert, whatever the rules say.
pub classify-with_log_dir :
    (action : FsAction) (path log_dir : Text) (rules : FsRules) (lang : Lang)
    → path_starts_with path log_dir ≡ true
    → classify action path (with_log_dir log_dir rules) lang ≡ none
unfolding classify with_log_dir
classify-with_log_dir action path log_dir rules lang h =
    elim (Bool-cases (any (λ p. components log_dir == components p) rules.ignore_paths)) [
      | inl e ↦ rw (e, same-any path log_dir rules.ignore_paths e h)
      | inr e ↦
          let added : path_starts_with_any path (rules.ignore_paths ++ (log_dir ∷ [])) ≡ true =
            unfold path_starts_with_any in
            any-append (λ p. path_starts_with path p) rules.ignore_paths (log_dir ∷ [])
            ∙ ground arith in
          rw (e, added)
    ]

-- What every alert of the monitor says of the path of its event.
abbrev pub Names : Text → Alert → Type 0
Names path a =
    Mentions path a.what
    × (lookup (codes "path") a.metadata ≡ some path)
    × (a.category ≡ filesystem)

sensitive-Names :
    (action : FsAction) (path : Text) (lang : Lang) (now : DateTime)
    → Names path (sensitive_alert action path lang now)
unfolding sensitive_alert with_meta alert_of sensitive_file_changed insert lookup
sensitive-Names action path fr now = (Mentions-format path _ (inr (inl refl)), refl, refl)
sensitive-Names action path en now = (Mentions-format path _ (inr (inl refl)), refl, refl)

log-Names : (path : Text) (lang : Lang) (now : DateTime) → Names path (log_alert path lang now)
unfolding log_alert with_meta alert_of log_deleted insert lookup
log-Names path fr now = (Mentions-format path _ (inr (inl refl)), refl, refl)
log-Names path en now = (Mentions-format path _ (inr (inl refl)), refl, refl)

suspicious-Names :
    (path : Text) (lang : Lang) (now : DateTime) → Names path (suspicious_alert path lang now)
unfolding suspicious_alert with_meta alert_of suspicious_file_created insert lookup
suspicious-Names path fr now = (Mentions-format path _ (inr (inl refl)), refl, refl)
suspicious-Names path en now = (Mentions-format path _ (inr (inl refl)), refl, refl)

-- A property of what `classify` returns, from its three kinds of alert and the tests before them.
classify_cases :
    (P : Option (DateTime → Alert) → Type 0) (action : FsAction) (path : Text) (rules : FsRules)
    (lang : Lang)
    → P none
    → (path_starts_with_any path rules.ignore_paths ≡ false
        → path_starts_with_any path rules.sensitive_paths ≡ true
        → P (some (sensitive_alert action path lang)))
    → (path_starts_with_any path rules.sensitive_paths ≡ false → P (some (log_alert path lang)))
    → (path_starts_with_any path rules.sensitive_paths ≡ false
        → P (some (suspicious_alert path lang)))
    → P (classify action path rules lang)
unfolding classify
classify_cases P action path rules lang a b c d =
    elim (Bool-cases (path_starts_with_any path rules.ignore_paths)) [
      | inl i ↦ rw i a
      | inr i ↦ elim (Bool-cases (path_starts_with_any path rules.sensitive_paths)) [
        | inl s ↦ rw (i, s) (b i s)
        | inr s ↦
            elim (Bool-cases (
              is_remove action
              && path_starts_with path (codes "/var/log")
              && not (looks_like_rotated_log path))) [
                | inl l ↦ rw (i, s, l) (c s)
                | inr l ↦
                    elim (Bool-cases (
                      is_create action
                      && path_starts_with_any path rules.suspicious_dirs
                      && contains (to_ascii_lowercase (or_default [] (extension path)))
                          rules.suspicious_extensions)) [
                            | inl t ↦ rw (i, s, l, t) (d s)
                            | inr t ↦ rw (i, s, l, t) a
                          ]
              ]
      ]
    ]

-- Whatever `classify` makes an alert of, in either language: its description mentions the path of
-- the event, its metadata hold the path, and its category is that of files.
pub classify-Names :
    (action : FsAction) (path : Text) (rules : FsRules) (lang : Lang) (now : DateTime)
    (make : DateTime → Alert)
    → classify action path rules lang ≡ some make
    → Names path (make now)
classify-Names action path rules lang now =
    classify_cases (λ r. (make : DateTime → Alert) → r ≡ some make → Names path (make now)) action
      path rules lang (λ make e. cc)
      (λ i s make e.
        subst (λ f. Names path (f now)) (some-injective _ _ e)
          (sensitive-Names action path lang now))
      (λ s make e. subst (λ f. Names path (f now)) (some-injective _ _ e) (log-Names path lang now))
      (λ s make e.
        subst (λ f. Names path (f now)) (some-injective _ _ e) (suspicious-Names path lang now))

sensitive_severity-critical_iff :
    (action : FsAction) → (sensitive_severity action ≡ critical) ↔ (is_remove action ≡ true)
unfolding sensitive_severity
sensitive_severity-critical_iff create = ground arith
sensitive_severity-critical_iff modify = ground arith
sensitive_severity-critical_iff metadata_change = ground arith
sensitive_severity-critical_iff remove_file = ground arith

-- When an alert made at `now` is critical.
abbrev pub IsCriticalIff : FsAction → Text → FsRules → Alert → Type 0
IsCriticalIff action path rules a =
    (a.severity ≡ critical)
    ↔ ((path_starts_with_any path rules.sensitive_paths ≡ true) × (is_remove action ≡ true))

-- An alert of a file is critical exactly if it is of the removal of a sensitive path.
pub classify-IsCriticalIff :
    (action : FsAction) (path : Text) (rules : FsRules) (lang : Lang) (now : DateTime)
    (make : DateTime → Alert)
    → classify action path rules lang ≡ some make
    → IsCriticalIff action path rules (make now)
unfolding sensitive_alert log_alert suspicious_alert with_meta alert_of
classify-IsCriticalIff action path rules lang now =
    let P = λ (f : DateTime → Alert). IsCriticalIff action path rules (f now) in
    classify_cases (λ r. (make : DateTime → Alert) → r ≡ some make → P make) action path rules lang
      (λ make e. cc)
      (λ i s make e. subst P (some-injective _ _ e) (
        λ h. (s, (sensitive_severity-critical_iff action).0 h),
        λ k. (sensitive_severity-critical_iff action).1 k.1,
      ))
      (λ s make e.
        subst P (some-injective _ _ e)
          (λ h. absurd (ground arith), λ k. absurd (false≢true (sym s ∙ k.0))))
      (λ s make e.
        subst P (some-injective _ _ e)
          (λ h. absurd (ground arith), λ k. absurd (false≢true (sym s ∙ k.0))))
