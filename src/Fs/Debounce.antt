-- ===== src/Fs/Debounce.antt =====
-- The table of the last alerts of the file monitor, as the loop updates and prunes it.
use mathlib.Core.Option.{some-injective}
use owl_sentry.Base.{
  ℕ, suc, ◌+◌, ◌-◌, ◌≤◌, ◌<◌, ◌≡◌, refl, ◌⊎◌, inl, inr, true, false, some, List, [], ◌∷◌, arith,
  ltb, Bool-cases, Option-cases, length, length-append, filter, All, ◌==◌, nat_eq, list_eq, pair_eq,
  lookup, insert, lookup-insert, lookup-insert_self,
}
use owl_sentry.Text.{Text}
use owl_sentry.Alert.Types.{DateTime, Alert}
use owl_sentry.I18n.{Lang}
use owl_sentry.Channel.{emit, Env}
use owl_sentry.FilePath.{component_eq, components}
use owl_sentry.Fs.{classify, FsRules, FsAction}
use owl_sentry.Fs.Monitor.{Key, is_muted, prune, fire, on_path, Monitor}

module _ (debounce : ℕ) where
  -- The alerts of one path are at least `debounce` apart; the last alert stands first.
  abbrev pub IsSpaced : List (Key × ℕ) → Type 0
  IsSpaced [] = Unit
  IsSpaced (f ∷ fs) = All (λ g. f.0 ≡ g.0 → g.1 + debounce ≤ f.1) fs × IsSpaced fs

  -- The table remembers an alert, or the alert is so old that it mutes nothing.
  abbrev pub Remembers : ℕ → List (Key × ℕ) → Key × ℕ → Type 0
  Remembers now last f = (f.1 + debounce ≤ now) ⊎ ((t : ℕ) × (lookup f.0 last ≡ some t) × (f.1 ≤ t))

  -- The invariant at the instant `now`.
  pub record Inv (now : ℕ) (m : Monitor) : Type 0 where
    pub spaced : IsSpaced m.fired
    pub remembered : All (Remembers now m.last_alert) m.fired
    pub past : All (λ f. f.1 ≤ now) m.fired
    pub counted : length m.out.sent ≤ length m.fired

  lookup-filter :
      (now : ℕ) (k : Key) (last : List (Key × ℕ)) (t : ℕ)
      → lookup k last ≡ some t
      → ltb (now - t) debounce ≡ true
      → lookup k (filter (λ e. ltb (now - e.1) debounce) last) ≡ some t
  unfolding lookup
  lookup-filter now k [] t h p = cc
  lookup-filter now k ((j, u) ∷ last) t h p = elim (Bool-cases (k == j)) [
    | inl same ↦
        let u-eq : u ≡ t = some-injective _ _ (rw same at h) in
        let q : ltb (now - u) debounce ≡ true = rw u-eq p in rw q (rw (same, u-eq) refl)
    | inr other ↦
        let rest = lookup-filter now k last t (rw other at h) p in
        elim (Bool-cases (ltb (now - u) debounce)) [
          | inl q ↦ rw (q, other) rest
          | inr q ↦ rw q rest
        ]
  ]

  Remembers-prune :
      (now : ℕ) (last : List (Key × ℕ)) (f : Key × ℕ)
      → 0 < debounce
      → Remembers now last f
      → Remembers now (prune debounce now last) f
  unfolding prune
  Remembers-prune now last f pos (inl old) = inl old
  Remembers-prune now last f pos (inr (t, e, le)) = elim (Bool-cases (ltb 10000 (length last))) [
    | inl big ↦ elim (Bool-cases (ltb (now - t) debounce)) [
      | inl young ↦ inr (t, rw big (lookup-filter now f.0 last t e young), le)
      | inr old ↦ inl (ground arith)
    ]
    | inr small ↦ inr (t, rw small e, le)
  ]

  Remembers-insert :
      (now : ℕ) (last : List (Key × ℕ)) (k : Key) (f : Key × ℕ)
      → f.1 ≤ now
      → Remembers now last f
      → Remembers now (insert k now last) f
  Remembers-insert now last k f le (inl old) = inl old
  Remembers-insert now last k f le (inr (t, e, lt)) = elim (Bool-cases (f.0 == k)) [
    | inl same ↦ inr (now, rw (lookup-insert k f.0 now last, same) refl, le)
    | inr other ↦ inr (t, rw (lookup-insert k f.0 now last, other) e, lt)
  ]

  All-map :
      (P Q : Key × ℕ → Type 0) (fs : List (Key × ℕ))
      → ((f : Key × ℕ) → P f → Q f)
      → All P fs
      → All Q fs
  All-map P Q [] step h = tt
  All-map P Q (f ∷ fs) step h = (step f h.0, All-map P Q fs step h.1)

  All-both :
      (P Q : Key × ℕ → Type 0) (fs : List (Key × ℕ)) → All P fs → All Q fs → All (λ f. P f × Q f) fs
  All-both P Q [] h k = tt
  All-both P Q (f ∷ fs) h k = ((h.0, k.0), All-both P Q fs h.1 k.1)

  -- Time passes.
  pub Inv-later : {m : Monitor} (now later : ℕ) → now ≤ later → Inv now m → Inv later m
  Inv-later {m} now later le v = record {
    spaced = v.spaced;
    remembered =
        All-map _ _ m.fired (λ f r. elim r [ inl old ↦ inl (omega arith) | inr t ↦ inr t ])
          v.remembered;
    past = All-map _ _ m.fired (λ f p. omega arith) v.past;
    counted = v.counted;
  }

  -- A path that is not muted has had no alert within the window.
  unmuted :
      (now : ℕ) (key : Key) (last : List (Key × ℕ)) (f : Key × ℕ)
      → 0 < debounce
      → is_muted debounce key now last ≡ false
      → Remembers now last f
      → key ≡ f.0
      → f.1 + debounce ≤ now
  unfolding is_muted
  unmuted now key last f pos h (inl old) same = old
  unmuted now key last f pos h (inr (t, e, le)) same =
      let found : lookup key last ≡ some t = rw same e in
      let quiet : ltb (now - t) debounce ≡ false = rw (found, is_muted) at h in ground arith

  module _ (env : Env) (rules : FsRules) (lang : Lang) where
    fire-Inv :
        (now : ℕ) (key : Key) (make : DateTime → Alert) (m : Monitor)
        → 0 < debounce
        → is_muted debounce key now m.last_alert ≡ false
        → Inv now m
        → Inv now (fire env debounce rules lang key now make m)
    unfolding fire emit
    fire-Inv now key make m pos quiet v =
        let table = insert key now m.last_alert in
        record {
          spaced = (
            All-map _ _ m.fired (λ f r same. unmuted now key m.last_alert f pos quiet r same)
                v.remembered,
            v.spaced,
          );
          remembered = (
            Remembers-prune now table (key, now) pos
                (inr (now, lookup-insert_self key now m.last_alert, omega arith)),
            All-map _ _ m.fired
                (λ f r.
                  Remembers-prune now table f pos (Remembers-insert now m.last_alert key f r.0 r.1))
                (All-both _ _ m.fired v.past v.remembered),
          );
          past = (omega arith, v.past);
          counted = sent_one v.counted;
        }
      where
        sent_one :
            length m.out.sent ≤ length m.fired
            → length (emit env make m.out).sent ≤ suc (length m.fired)
        sent_one h = elim (Bool-cases (env.accepts (length m.out.sent))) [
          | inl e ↦
              rw e (
                omega (arith, length-append m.out.sent (make (env.clock (length m.out.sent)) ∷ [])))
          | inr e ↦ rw e (omega arith)
        ]

    pub on_path-Inv :
        (action : FsAction) (path : Text) (now : ℕ) (m : Monitor)
        → 0 < debounce
        → Inv now m
        → Inv now (on_path env debounce rules lang action (path, now) m)
    unfolding on_path
    on_path-Inv action path now m pos v =
        elim (Bool-cases (is_muted debounce (components path) now m.last_alert)) [
          | inl e ↦ rw e v
          | inr e ↦ elim (Option-cases (classify action path rules lang)) [
            | inl c ↦ rw (e, c) v
            | inr (make, c) ↦ rw (e, c) (fire-Inv now (components path) make m pos e v)
          ]
        ]
