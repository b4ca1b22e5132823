-- ===== src/Gui/Merge.antt =====
-- What the window holds after an event, and what it shows.
use mathlib.Core.List.{reverse}
use mathlib.Core.Bool.{false≢true}
use owl_sentry.Alert.Order.{category_beq, category_beq_iff}
use owl_sentry.Base.{
  ℕ, ◌+◌, ◌-◌, ◌≤◌, ◌≡◌, refl, ap, ◌∙◌, ◌↔◌, inl, inr, Bool, true, false, not, ◌&&◌, ◌||◌, Option,
  none, some, List, [], ◌∷◌, ◌++◌, arith, ltb, Bool-cases, length, filter, count, All, count-append,
  take_last, length-drop, nat_eq, list_eq, pair_eq, contains,
}
use owl_sentry.Text.{Text, codes, format, contains_text, is_empty}
use owl_sentry.Alert.Types.{rank, severity_lt, DateTime, Alert, Severity, info, Category}
use owl_sentry.Gui.Client.{alert, recent}
use owl_sentry.Gui.App.{
  max_alerts_in_memory, earlier_or_same, insert_sorted, sort_by_timestamp, ids, on_event,
  matches_filters, filtered, clear_filters, App,
}

-- A timestamp is no later than those behind it.
abbrev pub IsSorted : List Alert → Type 0
IsSorted [] = Unit
IsSorted (a ∷ log) = All (λ b. earlier_or_same a.timestamp b.timestamp ≡ true) log × IsSorted log

earlier_total : (a b : DateTime) → earlier_or_same a b ≡ false → earlier_or_same b a ≡ true
unfolding earlier_or_same
earlier_total a b h = ground arith

earlier_trans :
    (a b c : DateTime)
    → earlier_or_same a b ≡ true
    → earlier_or_same b c ≡ true
    → earlier_or_same a c ≡ true
unfolding earlier_or_same
earlier_trans a b c h k = ground arith

All-earlier :
    (a b : Alert) (log : List Alert)
    → earlier_or_same a.timestamp b.timestamp ≡ true
    → All (λ c. earlier_or_same b.timestamp c.timestamp ≡ true) log
    → All (λ c. earlier_or_same a.timestamp c.timestamp ≡ true) log
All-earlier a b [] h k = tt
All-earlier a b (c ∷ log) h k =
    (earlier_trans a.timestamp b.timestamp c.timestamp h k.0, All-earlier a b log h k.1)

All-insert_sorted :
    (P : Alert → Type 0) (a : Alert) (log : List Alert)
    → P a
    → All P log
    → All P (insert_sorted a log)
unfolding insert_sorted
All-insert_sorted P a [] h k = (h, tt)
All-insert_sorted P a (b ∷ log) h k = elim (Bool-cases (earlier_or_same a.timestamp b.timestamp)) [
  | inl e ↦ rw e (h, k)
  | inr e ↦ rw e (k.0, All-insert_sorted P a log h k.1)
]

insert_sorted-IsSorted :
    (a : Alert) (log : List Alert) → IsSorted log → IsSorted (insert_sorted a log)
unfolding insert_sorted
insert_sorted-IsSorted a [] s = (tt, tt)
insert_sorted-IsSorted a (b ∷ log) s = elim (Bool-cases (earlier_or_same a.timestamp b.timestamp)) [
  | inl e ↦ rw e ((e, All-earlier a b log e s.0), s)
  | inr e ↦ rw e (
    All-insert_sorted _ a log (earlier_total a.timestamp b.timestamp e) s.0,
    insert_sorted-IsSorted a log s.1,
  )
]

sort-IsSorted : (log : List Alert) → IsSorted (sort_by_timestamp log)
unfolding sort_by_timestamp
sort-IsSorted [] = tt
sort-IsSorted (a ∷ log) = insert_sorted-IsSorted a (sort_by_timestamp log) (sort-IsSorted log)

count-insert_sorted :
    (p : Alert → Bool) (a : Alert) (log : List Alert)
    → count p (insert_sorted a log) ≡ count p (a ∷ log)
unfolding insert_sorted
count-insert_sorted p a [] = refl
count-insert_sorted p a (b ∷ log) = ground (arith, count-insert_sorted p a log)

pub count-sort :
    (p : Alert → Bool) (log : List Alert) → count p (sort_by_timestamp log) ≡ count p log
unfolding sort_by_timestamp
count-sort p [] = refl
count-sort p (a ∷ log) =
    count-insert_sorted p a (sort_by_timestamp log) ∙ ground (arith, count-sort p log)

count-filter :
    (p q : Alert → Bool) (log : List Alert) → count p (filter q log) ≡ count (λ a. q a && p a) log
count-filter p q [] = refl
count-filter p q (a ∷ log) = ground (arith, count-filter p q log)

-- An answer with the recent alerts leaves the window sorted by time. It holds the alerts of the
-- answer and those that it held before whose number is not in the answer, each as often as there.
pub on_event-recent :
    (log : List Alert) (app : App) (p : Alert → Bool)
    → IsSorted (on_event (recent log) app).alerts
      × (count p (on_event (recent log) app).alerts
          ≡ count (λ a. not (contains a.id (ids log)) && p a) app.alerts + count p log)
unfolding on_event
on_event-recent log app p = (
  sort-IsSorted _,
  count-sort p _
      ∙ count-append p _ log
      ∙ ap (λ n. n + count p log) (count-filter p (λ a. not (contains a.id (ids log))) app.alerts),
)

-- A new alert is the last of the window, which keeps the last 5000 alerts, in their order.
pub on_event-alert :
    (a : Alert) (app : App)
    → ((on_event (alert a) app).alerts ≡ take_last max_alerts_in_memory (app.alerts ++ (a ∷ [])))
      × (length (on_event (alert a) app).alerts ≤ max_alerts_in_memory)
unfolding on_event
on_event-alert a app =
    elim (Bool-cases (ltb max_alerts_in_memory (length (app.alerts ++ (a ∷ []))))) [
      | inl e ↦ rw e (refl, omega (arith, length-drop _ (app.alerts ++ (a ∷ []))))
      | inr e ↦
          let fits : length (app.alerts ++ (a ∷ [])) ≤ max_alerts_in_memory = ground arith in
          let none_left : length (app.alerts ++ (a ∷ [])) - max_alerts_in_memory ≡ 0 =
            omega arith in
          rw (e, none_left) (refl, fits)
    ]

not-lt-info : (s : Severity) → not (severity_lt s info) ≡ true
unfolding rank
not-lt-info info = refl
not-lt-info _ = refl

filter_all : (p : Alert → Bool) (log : List Alert) → ((a : Alert) → p a ≡ true) → filter p log ≡ log
filter_all p [] h = refl
filter_all p (a ∷ log) h = rw (h a, filter_all p log h)

-- With the filters cleared the list shows every alert that the window holds, the last first.
pub filtered-clear_filters :
    (to_lowercase : Text → Text) (app : App)
    → filtered to_lowercase (clear_filters app) ≡ reverse app.alerts
unfolding filtered clear_filters matches_filters
filtered-clear_filters to_lowercase app =
    filter_all _ (reverse app.alerts) (λ a. rw (not-lt-info a.severity) refl)

-- The filter by category.
abbrev pub HasCategory : Option Category → Alert → Type 0
HasCategory none a = Unit
HasCategory (some c) a = a.category ≡ c

-- The filter by text; `hay` is the text searched.
abbrev pub Finds : Text → Bool → Type 0
Finds [] found = Unit
Finds (_ ∷ _) found = found ≡ true

category_part_iff :
    (o : Option Category) (a : Alert)
    → ((elim o [ none ↦ true | some c ↦ category_beq a.category c ]) ≡ true) ↔ HasCategory o a
category_part_iff none a = (λ _. tt, λ _. refl)
category_part_iff (some c) a = category_beq_iff a.category c

search_part_iff : (s : Text) (found : Bool) → ((is_empty s || found) ≡ true) ↔ Finds s found
search_part_iff [] found = (λ _. tt, λ _. refl)
search_part_iff (c ∷ s) found = (λ h. h, λ h. h)

and_iff :
    (a b c : Bool) {A B C : Type 0}
    → (a ≡ true) ↔ A
    → (b ≡ true) ↔ B
    → (c ≡ true) ↔ C
    → ((a && b && c) ≡ true) ↔ (A × B × C)
and_iff true true true f g h = (λ _. (f.0 refl, g.0 refl, h.0 refl), λ _. refl)
and_iff true true false f g h = (λ e. absurd (false≢true e), λ k. h.1 k.2)
and_iff true false c f g h = (λ e. absurd (false≢true e), λ k. absurd (false≢true (g.1 k.1)))
and_iff false b c f g h = (λ e. absurd (false≢true e), λ k. absurd (false≢true (f.1 k.0)))

severe_iff : (m n : ℕ) → (not (ltb m n) ≡ true) ↔ (n ≤ m)
severe_iff m n = ground arith

-- An alert passes the filters exactly if it is at least as severe as asked for, is of the category
-- chosen, if one is, and its lower-cased title, description and reason contain the lower-cased
-- search text, if there is one.
pub matches_filters_iff :
    (to_lowercase : Text → Text) (app : App) (a : Alert)
    → (matches_filters to_lowercase app a ≡ true) ↔ (
        (rank app.min_severity ≤ rank a.severity)
        × HasCategory app.category_filter a
        × Finds app.search (
            contains_text
              (to_lowercase app.search)
              (to_lowercase (format (a.title ∷ codes " " ∷ a.what ∷ codes " " ∷ a.why ∷ [])))))
unfolding matches_filters
matches_filters_iff to_lowercase app a =
    and_iff _ _ _ (severe_iff (rank a.severity) (rank app.min_severity))
      (category_part_iff app.category_filter a) (search_part_iff app.search _)
