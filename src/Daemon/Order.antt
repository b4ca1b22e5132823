-- ===== src/Daemon/Order.antt =====
-- The counters of the daemon (crates/owlsentry-daemon/src/state.rs) whatever the order in which the
-- monitors send their alerts: the abstract view of what arrived is a multiset.
use mathlib.Core.List.{Perm, Permᴰ}
use mathlib.Core.Path.{ap₂}
use mathlib.Core.Logic.{∥∥₁_elim}
use mathlib.Core.Quot
use mathlib.Core.Quot.{Quot}
use mathlib.Mathlib.Data.Multiset.Defs.{Multiset, of_list, coe-eq-coe}
use native.Mathlib.Nat.{ℕ_set}
use owl_sentry.Base.{
  ℕ, suc, true, map, ◌%◌, ◌≡◌, refl, sym, ap, ◌∙◌, Bool, Option, List, [], ◌∷◌, arith, u64_mod,
  next_u64, length, count, if◌then◌else◌, nat_eq, list_eq, pair_eq,
}
use owl_sentry.Text.{Text}
use owl_sentry.Alert.Types.{severity_str, category_str, DateTime, Alert, Severity, Category}
use owl_sentry.Alert.Order.{severity_beq, category_beq}
use owl_sentry.State.{stats_of}
use owl_sentry.State.Counts.{counter, stats-record_all}
use owl_sentry.Server.{Decoded}
use owl_sentry.Dispatcher.Ids.{alerts, numbered, run-start}
use owl_sentry.Daemon.{started, Daemon, Reach}
use owl_sentry.Daemon.Sessions.{flushed-run}

module _ {A : Type 0} (p : A → Bool) where
  count_two : (a b : A) (l : List A) → count p (a ∷ b ∷ l) ≡ count p (b ∷ a ∷ l)
  count_two a b l = ground arith

  count-permᴰ : {xs ys : List A} → Permᴰ xs ys → count p xs ≡ count p ys
  count-permᴰ Permᴰ.nil = refl
  count-permᴰ (Permᴰ.cons {a} {b} e d) = ap₂ (λ c n. if p c then suc n else n) e (count-permᴰ d)
  count-permᴰ (Permᴰ.swap {a} {b} {a'} {b'} {l} e f) =
      count_two a b l ∙ ap₂ (λ c d. count p (c ∷ d ∷ l)) f e
  count-permᴰ (Permᴰ.trans d e) = count-permᴰ d ∙ count-permᴰ e

  pub count-perm : (xs ys : List A) → Perm xs ys → count p xs ≡ count p ys
  count-perm xs ys h = ∥∥₁_elim h (ℕ_set _ _) count-permᴰ

  -- How many elements of a multiset pass a test
  unfoldable pub tally : Multiset A → ℕ
  tally = Quot.lift ℕ_set (count p) count-perm

abbrev pub sent : List (Bool × Alert) → List Alert
sent = map (λ p. p.1)

-- A number changes neither the severity nor the category.
count-numbered :
    (p : Severity → Category → Bool) (n : ℕ) (batch : List (Bool × Alert))
    → count (λ a. p a.severity a.category) (alerts (numbered n batch))
      ≡ count (λ a. p a.severity a.category) (sent batch)
unfolding numbered
count-numbered p n [] = refl
count-numbered p n ((fits, a) ∷ batch) =
    ap (λ k. if p a.severity a.category then suc k else k) (count-numbered p (next_u64 n) batch)

length-count : (log : List Alert) → length log ≡ count (λ a. true) log
length-count [] = refl
length-count (a ∷ log) = ap suc (length-count log)

module _ (from_timestamp : ℕ → ℕ → Option DateTime) (decode : Text → Decoded)
    (version language : Text) where
  -- The counters are those of the multiset of the alerts that arrived, modulo 2^64.
  pub counters-bag :
      (now : DateTime) (capacity : ℕ) (h : Daemon)
      → Reach from_timestamp decode version language (started now capacity) h
      → (v : Severity) (k : Category)
      → let st = stats_of h.dispatcher.state in
        let bag = of_list (sent h.arrivals) in
        (st.total ≡ tally (λ a. true) bag % u64_mod)
        × (counter (severity_str v) st.by_severity
            ≡ tally (λ a. severity_beq v a.severity) bag % u64_mod)
        × (counter (category_str k) st.by_category
            ≡ tally (λ a. category_beq k a.category) bag % u64_mod)
  unfolding tally
  counters-bag now capacity h r v k =
      let numbers = alerts (numbered 1 h.arrivals) in
      let same =
        ap (λ d. d.state) (flushed-run from_timestamp decode version language now capacity h r)
        ∙ (run-start from_timestamp now capacity h.arrivals).1 in
      let (total, severity, category) = stats-record_all from_timestamp now capacity numbers v k in
      (
        ap (λ s. (stats_of s).total) same
            ∙ total
            ∙ ap (λ n. n % u64_mod)
                (length-count numbers ∙ count-numbered (λ s c. true) 1 h.arrivals),
        ap (λ s. counter (severity_str v) (stats_of s).by_severity) same
            ∙ severity
            ∙ ap (λ n. n % u64_mod) (count-numbered (λ s c. severity_beq v s) 1 h.arrivals),
        ap (λ s. counter (category_str k) (stats_of s).by_category) same
            ∙ category
            ∙ ap (λ n. n % u64_mod) (count-numbered (λ s c. category_beq k c) 1 h.arrivals),
      )

  -- Two daemons at which the same alerts have arrived, in any two orders and beside any sessions, show the
  -- same total and the same counters of every severity and category.
  pub counters_agree :
      (now now' : DateTime) (capacity capacity' : ℕ) (h g : Daemon)
      → Reach from_timestamp decode version language (started now capacity) h
      → Reach from_timestamp decode version language (started now' capacity') g
      → Perm (sent h.arrivals) (sent g.arrivals)
      → (v : Severity) (k : Category)
      → let st = stats_of h.dispatcher.state in
        let st' = stats_of g.dispatcher.state in
        (st.total ≡ st'.total)
        × (counter (severity_str v) st.by_severity ≡ counter (severity_str v) st'.by_severity)
        × (counter (category_str k) st.by_category ≡ counter (category_str k) st'.by_category)
  counters_agree now now' capacity capacity' h g r q same v k =
      let (a, b, c) = counters-bag now capacity h r v k in
      let (a', b', c') = counters-bag now' capacity' g q v k in
      let bags : of_list (sent h.arrivals) ≡ of_list (sent g.arrivals) = coe-eq-coe.1 same in
      (
        a ∙ ap (λ m. tally (λ x. true) m % u64_mod) bags ∙ sym a',
        b ∙ ap (λ m. tally (λ x. severity_beq v x.severity) m % u64_mod) bags ∙ sym b',
        c ∙ ap (λ m. tally (λ x. category_beq k x.category) m % u64_mod) bags ∙ sym c',
      )
