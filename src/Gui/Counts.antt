-- ===== src/Gui/Counts.antt =====
-- The numbers of the dashboard.
use Prim.Native.Nat.{min}
use owl_sentry.Base.{
  ℕ, zero, suc, ◌+◌, ◌-◌, ◌*◌, ◌/◌, ◌<◌, ◌≡◌, refl, ap, ◌∙◌, inl, inr, Bool, ◌&&◌, some, List, [],
  ◌∷◌, map, arith, ltb, leb, if◌then◌else◌, Bool-cases, length, replicate, get_elem?, count, nat_eq,
  ◌==◌, list_eq, pair_eq,
}
use owl_sentry.Alert.Types.{rank, all_severities, category_rank, all_categories, DateTime, Alert}
use owl_sentry.Alert.Order.{severity_beq, category_beq}
use owl_sentry.Gui.App.{severity_count, category_count, App}
use owl_sentry.Gui.Dashboard.{
  nanoseconds, hour_nanoseconds, is_of_day, hour_index, no_counts, add_at, fill_buckets,
}

abbrev pub sum : List ℕ → ℕ
sum [] = 0
sum (n ∷ ns) = n + sum ns

severity_partition :
    (log : List Alert)
    → sum (map (λ v. count (λ a. severity_beq a.severity v) log) all_severities) ≡ length log
unfolding severity_beq rank
severity_partition [] = refl
severity_partition (a ∷ log) = ground (arith, severity_partition log)

category_partition :
    (log : List Alert)
    → sum (map (λ k. count (λ a. category_beq a.category k) log) all_categories) ≡ length log
unfolding category_beq category_rank
category_partition [] = refl
category_partition (a ∷ log) = ground (arith, category_partition log)

-- Every alert of the window is counted once by severity and once by category, so that either
-- column of the dashboard adds up to the total above it.
pub dashboard_adds_up :
    (app : App)
    → (sum (map (λ v. severity_count v app) all_severities) ≡ length app.alerts)
      × (sum (map (λ k. category_count k app) all_categories) ≡ length app.alerts)
unfolding severity_count category_count
dashboard_adds_up app = (severity_partition app.alerts, category_partition app.alerts)

length-add_at : (i : ℕ) (cs : List ℕ) → length (add_at i cs) ≡ length cs
unfolding add_at
length-add_at i [] = refl
length-add_at zero (c ∷ cs) = refl
length-add_at (suc i) (c ∷ cs) = omega (arith, length-add_at i cs)

get_elem?-add_at :
    (i j n : ℕ) (cs : List ℕ)
    → get_elem? cs j ≡ some n
    → get_elem? (add_at i cs) j ≡ some (n + (if i == j then 1 else 0))
unfolding add_at
get_elem?-add_at i j n [] h = cc
get_elem?-add_at zero zero n (c ∷ cs) h = ground arith
get_elem?-add_at zero (suc j) n (c ∷ cs) h = ground arith
get_elem?-add_at (suc i) zero n (c ∷ cs) h = ground arith
get_elem?-add_at (suc i) (suc j) n (c ∷ cs) h = ground (arith, get_elem?-add_at i j n cs h)

-- The alerts of the last day whose bar is the `j`th.
abbrev pub has_hour : DateTime → ℕ → Alert → Bool
has_hour now j a = is_of_day now a && (hour_index now a == j)

get_elem?-fill_buckets :
    (now : DateTime) (log : List Alert) (cs : List ℕ) (j n : ℕ)
    → get_elem? cs j ≡ some n
    → get_elem? (fill_buckets now log cs) j ≡ some (n + count (has_hour now j) log)
unfolding fill_buckets
get_elem?-fill_buckets now [] cs j n h = ground arith
get_elem?-fill_buckets now (a ∷ log) cs j n h = elim (Bool-cases (is_of_day now a)) [
  | inl e ↦
      let k = get_elem?-add_at (hour_index now a) j n cs h in
      let r = get_elem?-fill_buckets now log (add_at (hour_index now a) cs) j _ k in
      rw e (r ∙ ap some (ground arith))
  | inr e ↦ rw e (get_elem?-fill_buckets now log cs j n h)
]

none_yet : (j k : ℕ) → j < k → get_elem? (replicate {A = ℕ} k 0) j ≡ some 0
none_yet j zero h = absurd (ground arith)
none_yet zero (suc k) h = refl
none_yet (suc j) (suc k) h = none_yet j k (omega arith)

abbrev pub in_hour : DateTime → ℕ → Alert → Bool
in_hour now j a =
    leb (nanoseconds a.timestamp) (nanoseconds now)
    && leb ((23 - j) * hour_nanoseconds) (nanoseconds now - nanoseconds a.timestamp)
    && ltb (nanoseconds now - nanoseconds a.timestamp) ((24 - j) * hour_nanoseconds)

same_hour :
    (t now j : ℕ)
    → j < 24
    → (leb t now
        && ltb (now - t) (24 * hour_nanoseconds)
        && (23 - min ((now - t) / hour_nanoseconds) 23 == j))
      ≡ (leb t now
          && leb ((23 - j) * hour_nanoseconds) (now - t)
          && ltb (now - t) ((24 - j) * hour_nanoseconds))
same_hour t now j h = ground arith

in_hour_eq : (now : DateTime) (j : ℕ) → j < 24 → (a : Alert) → has_hour now j a ≡ in_hour now j a
in_hour_eq now j h a = same_hour (nanoseconds a.timestamp) (nanoseconds now) j h

count_same :
    (p q : Alert → Bool)
    → ((a : Alert) → p a ≡ q a)
    → (log : List Alert) → count p log ≡ count q log
count_same p q h [] = refl
count_same p q h (a ∷ log) = ground (arith, h a, count_same p q h log)

-- The `j`th of the 24 numbers of the histogram is that of the alerts of the window that are not of
-- the future and between 23 - j hours, included, and 24 - j hours old.
pub fill_buckets_lem :
    (now : DateTime) (log : List Alert) (j : ℕ)
    → j < 24
    → get_elem? (fill_buckets now log no_counts) j ≡ some (count (in_hour now j) log)
fill_buckets_lem now log j h =
    get_elem?-fill_buckets now log no_counts j 0 (none_yet j 24 h)
    ∙ ap some (omega (arith, count_same (has_hour now j) (in_hour now j) (in_hour_eq now j h) log))
