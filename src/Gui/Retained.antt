-- ===== src/Gui/Retained.antt =====
-- crates/owlsentry-gui/src/app.rs: what `drain_events` keeps, as long as there is room for it.
use mathlib.Core.Bool.{true≢false}
use owl_sentry.Base.{
  filter, In-append_left, In-append_right, ◌⊎◌, ℕ, ◌+◌, ◌≤◌, ◌<◌, ◌≡◌, refl, sym, ap, ◌∙◌, inl, inr,
  Bool, true, false, not, ◌&&◌, List, [], ◌∷◌, ◌++◌, arith, ltb, Bool-cases, length, length-append,
  count, In, nat_eq, nat_beq_iff, ◌==◌, list_eq, pair_eq, contains,
}
use owl_sentry.Alert.Types.{Alert}
use owl_sentry.Gui.Client.{GuiEvent, connected, disconnected, alert, recent}
use owl_sentry.Gui.App.{
  sort_by_timestamp, insert_sorted, earlier_or_same, max_alerts_in_memory, ids, on_event,
  drain_events, App,
}
use owl_sentry.Gui.Merge.{on_event-recent}

-- The places that events may take
unfoldable pub places : List GuiEvent → ℕ
places [] = 0
places (alert a ∷ es) = 1 + places es
places (recent log ∷ es) = length log + places es
places (connected l ∷ es) = places es
places (disconnected ∷ es) = places es

-- The alerts of the answers among the events
unfoldable pub Answered : Alert → List GuiEvent → Type 0
Answered b [] = ⊥
Answered b (recent log ∷ es) = In b log ⊎ Answered b es
Answered b (alert a ∷ es) = Answered b es
Answered b (connected l ∷ es) = Answered b es
Answered b (disconnected ∷ es) = Answered b es

-- A list holds an alert of a number, of which `P` holds.
abbrev pub Holds : (Alert → Type 0) → ℕ → List Alert → Type 0
Holds P n log = (b : Alert) × In b log × (b.id ≡ n) × P b

count-length : (log : List Alert) → count (λ a. true) log ≡ length log
count-length [] = refl
count-length (a ∷ log) = omega (arith, count-length log)

count_le : (p : Alert → Bool) (log : List Alert) → count p log ≤ length log
count_le p [] = omega arith
count_le p (a ∷ log) = ground (arith, count_le p log)

contains-In :
    (n : ℕ) (log : List Alert) → contains n (ids log) ≡ true → (c : Alert) × In c log × (c.id ≡ n)
contains-In n [] h = absurd (true≢false (sym h))
contains-In n (a ∷ log) h = elim (Bool-cases (n == a.id)) [
  | inl e ↦ (a, inl refl, sym ((nat_beq_iff n a.id).0 e))
  | inr e ↦ let (c, m, same) = contains-In n log (ground arith) in (c, inr m, same)
]

In-filter :
    (p : Alert → Bool) (b : Alert) (xs : List Alert) → In b xs → p b ≡ true → In b (filter p xs)
In-filter p b [] m h = absurd m
In-filter p b (x ∷ xs) (inl e) h = rw (sym (ap p e) ∙ h) (inl e)
In-filter p b (x ∷ xs) (inr m) h = elim (Bool-cases (p x)) [
  | inl k ↦ rw k (inr (In-filter p b xs m h))
  | inr k ↦ rw k (In-filter p b xs m h)
]

behind_first :
    (b a c : Alert) (log rest : List Alert)
    → (In b (a ∷ log) → In b rest)
    → In b (a ∷ c ∷ log)
    → In b (c ∷ rest)
behind_first b a c log rest f (inl e) = inr (f (inl e))
behind_first b a c log rest f (inr (inl e)) = inl e
behind_first b a c log rest f (inr (inr k)) = inr (f (inr k))

In-insert_sorted : (b a : Alert) (log : List Alert) → In b (a ∷ log) → In b (insert_sorted a log)
unfolding insert_sorted
In-insert_sorted b a [] m = m
In-insert_sorted b a (c ∷ log) m = elim (Bool-cases (earlier_or_same a.timestamp c.timestamp)) [
  | inl e ↦ rw e m
  | inr e ↦ rw e (behind_first b a c log (insert_sorted a log) (In-insert_sorted b a log) m)
]

In-sort : (b : Alert) (log : List Alert) → In b log → In b (sort_by_timestamp log)
unfolding sort_by_timestamp
In-sort b [] m = m
In-sort b (a ∷ log) (inl e) = In-insert_sorted b a (sort_by_timestamp log) (inl e)
In-sort b (a ∷ log) (inr m) = In-insert_sorted b a (sort_by_timestamp log) (inr (In-sort b log m))

-- An answer that has the number of an alert brings one of that number; any other leaves the alert.
recent-Holds :
    (P : Alert → Type 0) (n : ℕ) (log : List Alert) (app : App)
    → ((b : Alert) → In b log → P b)
    → Holds P n app.alerts
    → Holds P n (on_event (recent log) app).alerts
unfolding on_event
recent-Holds P n log app told (b, m, same, p) =
    let kept = filter (λ a. not (contains a.id (ids log))) app.alerts in
    elim (Bool-cases (contains b.id (ids log))) [
      | inl c ↦
          let (d, k, e) = contains-In b.id log c in
          (d, In-sort d (kept ++ log) (In-append_right d kept log k), e ∙ same, told d k)
      | inr c ↦
          let k = In-filter (λ a. not (contains a.id (ids log))) b app.alerts m (ap not c) in
          (b, In-sort b (kept ++ log) (In-append_left b kept log k), same, p)
    ]

length-recent :
    (log : List Alert) (app : App)
    → length (on_event (recent log) app).alerts ≤ length app.alerts + length log
length-recent log app = omega (
  arith,
  (on_event-recent log app (λ a. true)).1,
  count-length (on_event (recent log) app).alerts,
  count-length log,
  count_le (λ a. not (contains a.id (ids log)) && true) app.alerts,
)

alert_fits :
    (a : Alert) (app : App)
    → length app.alerts < max_alerts_in_memory
    → (on_event (alert a) app).alerts ≡ app.alerts ++ (a ∷ [])
unfolding on_event
alert_fits a app room =
    let fits : ltb max_alerts_in_memory (length (app.alerts ++ (a ∷ []))) ≡ false =
      ground (arith, length-append app.alerts (a ∷ [])) in
    rw fits refl

module _ (P : Alert → Type 0) (n : ℕ) where
  -- What is held stays held, if there is room for all that comes.
  drain_events-keeps :
      (es : List GuiEvent) (app : App)
      → length app.alerts + places es ≤ max_alerts_in_memory
      → ((b : Alert) → Answered b es → P b)
      → Holds P n app.alerts
      → Holds P n (drain_events es app).alerts
  unfolding drain_events places on_event Answered
  drain_events-keeps [] app room told h = h
  drain_events-keeps (connected l ∷ es) app room told h = drain_events-keeps es _ room told h
  drain_events-keeps (disconnected ∷ es) app room told h = drain_events-keeps es _ room told h
  drain_events-keeps (alert a ∷ es) app room told (b, m, same, p) =
      let e = alert_fits a app (omega arith) in
      drain_events-keeps es (on_event (alert a) app)
        (omega (arith, ap length e, length-append app.alerts (a ∷ []))) told
        (b, rw e (In-append_left b app.alerts (a ∷ []) m), same, p)
  drain_events-keeps (recent log ∷ es) app room told h =
      drain_events-keeps es (on_event (recent log) app) (omega (arith, length-recent log app))
        (λ b k. told b (inr k)) (recent-Holds P n log app (λ b k. told b (inl k)) h)

  -- An alert that comes is held afterwards, if there is room for all that comes.
  pub drain_events-Holds :
      (a : Alert) (es : List GuiEvent) (app : App)
      → length app.alerts + places es ≤ max_alerts_in_memory
      → ((b : Alert) → Answered b es → P b)
      → a.id ≡ n
      → P a
      → In (alert a) es
      → Holds P n (drain_events es app).alerts
  unfolding drain_events places on_event Answered
  drain_events-Holds a [] app room told same p m = absurd m
  drain_events-Holds a (connected l ∷ es) app room told same p (inr m) =
      drain_events-Holds a es _ room told same p m
  drain_events-Holds a (disconnected ∷ es) app room told same p (inr m) =
      drain_events-Holds a es _ room told same p m
  drain_events-Holds a (recent log ∷ es) app room told same p (inr m) =
      drain_events-Holds a es (on_event (recent log) app) (omega (arith, length-recent log app))
        (λ b k. told b (inr k)) same p m
  drain_events-Holds a (alert b ∷ es) app room told same p (inr m) =
      let e = alert_fits b app (omega arith) in
      drain_events-Holds a es (on_event (alert b) app)
        (omega (arith, ap length e, length-append app.alerts (b ∷ []))) told same p m
  drain_events-Holds a (alert b ∷ es) app room told same p (inl i) =
      let e = alert_fits b app (omega arith) in
      let one : a ≡ b = cc in
      drain_events-keeps es (on_event (alert b) app)
        (omega (arith, ap length e, length-append app.alerts (b ∷ []))) told
        (a, rw e (In-append_right a app.alerts (b ∷ []) (inl one)), same, p)
  drain_events-Holds a (recent b ∷ es) app room told same p (inl i) = cc
  drain_events-Holds a (connected b ∷ es) app room told same p (inl i) = cc
  drain_events-Holds a (disconnected ∷ es) app room told same p (inl i) = cc
