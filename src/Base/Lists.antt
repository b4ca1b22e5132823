-- ===== src/Base/Lists.antt =====
-- Lists measured by native numbers, membership by recursion, and the window of the last entries.
use Prim.Native.Nat.{ℕ, zero, suc, ◌+◌, ◌-◌, ◌≤◌, ◌<◌, min}
use mathlib.Core.Bool.{Bool, true, false, ◌&&◌, ◌||◌}
use mathlib.Core.List.{List, [], ◌∷◌, ◌++◌}
use mathlib.Core.Logic.{◌⊎◌, inl, inr}
use mathlib.Core.Option.{Option, none, some}
use mathlib.Core.Path.{◌≡◌, refl, ap, sym, ◌∙◌}
use native.Mathlib.Omega.{arith}
use owl_sentry.Base.Tests.{ltb, if◌then◌else◌, Bool-cases}

module _ {ℓ} {A : Type ℓ} where
  abbrev pub length : List A → ℕ
  length [] = 0
  length (x ∷ xs) = suc (length xs)

  pub length-append : (xs ys : List A) → length (xs ++ ys) ≡ length xs + length ys
  length-append [] ys = omega arith
  length-append (x ∷ xs) ys = omega (arith, length-append xs ys)

  -- The elements that pass a test, as `retain` and `filter` keep them.
  abbrev pub filter : (A → Bool) → List A → List A
  filter p [] = []
  filter p (x ∷ xs) = if p x then x ∷ filter p xs else filter p xs

  abbrev pub replicate : ℕ → A → List A
  replicate zero a = []
  replicate (suc n) a = a ∷ replicate n a

  abbrev pub get_elem? : List A → ℕ → Option A
  get_elem? [] i = none
  get_elem? (x ∷ xs) zero = some x
  get_elem? (x ∷ xs) (suc i) = get_elem? xs i

  abbrev pub any : (A → Bool) → List A → Bool
  any p [] = false
  any p (x ∷ xs) = p x || any p xs

  abbrev pub all : (A → Bool) → List A → Bool
  all p [] = true
  all p (x ∷ xs) = p x && all p xs

  -- How many elements pass a test.
  abbrev pub count : (A → Bool) → List A → ℕ
  count p [] = 0
  count p (x ∷ xs) = if p x then suc (count p xs) else count p xs

  abbrev pub drop : ℕ → List A → List A
  drop zero xs = xs
  drop (suc n) [] = []
  drop (suc n) (x ∷ xs) = drop n xs

  abbrev pub All {κ} : (holds : A → Type κ) (whole : List A) → Type κ
  All holds [] = Unit
  All holds (first ∷ others) = holds first × All holds others

  pub length-filter-le : (p : A → Bool) (xs : List A) → length (filter p xs) ≤ length xs
  length-filter-le p [] = omega arith
  length-filter-le p (x ∷ xs) = ground (arith, length-filter-le p xs)

  pub count-append : (p : A → Bool) (xs ys : List A) → count p (xs ++ ys) ≡ count p xs + count p ys
  count-append p [] ys = omega arith
  count-append p (x ∷ xs) ys = ground (arith, count-append p xs ys)

  pub filter-append :
      (p : A → Bool) (xs ys : List A) → filter p (xs ++ ys) ≡ filter p xs ++ filter p ys
  filter-append p [] ys = refl
  filter-append p (x ∷ xs) ys = ground (arith, filter-append p xs ys)

  pub All-append {κ} :
      (holds : A → Type κ) (front back : List A)
      → All holds front
      → All holds back
      → All holds (front ++ back)
  All-append holds [] back h k = k
  All-append holds (a ∷ front) back h k = (h.0, All-append holds front back h.1 k)

  pub All-filter {κ} :
      (P : A → Type κ) (p : A → Bool) (xs : List A) → All P xs → All P (filter p xs)
  All-filter P p [] h = tt
  All-filter P p (x ∷ xs) h = elim (Bool-cases (p x)) [
    | inl e ↦ rw e (h.0, All-filter P p xs h.1)
    | inr e ↦ rw e (All-filter P p xs h.1)
  ]

  -- The loop `while q.len() > n { q.pop_front(); }`.
  unfoldable pub trim_front : ℕ → List A → List A
  trim_front n [] = []
  trim_front n (x ∷ xs) = if ltb n (suc (length xs)) then trim_front n xs else x ∷ xs

  -- The last `n` elements.
  abbrev pub take_last : ℕ → List A → List A
  take_last n xs = drop (length xs - n) xs

  pub length-drop : (n : ℕ) (xs : List A) → length (drop n xs) ≡ length xs - n
  length-drop zero xs = omega arith
  length-drop (suc n) [] = omega arith
  length-drop (suc n) (x ∷ xs) = omega (arith, length-drop n xs)

  drop_excess :
      (n : ℕ) (x : A) (xs : List A) → n < suc (length xs) → take_last n (x ∷ xs) ≡ take_last n xs
  drop_excess n x xs h =
      let e : suc (length xs) - n ≡ suc (length xs - n) = omega arith in rw e refl

  drop_none : (n : ℕ) (xs : List A) → length xs ≤ n → take_last n xs ≡ xs
  drop_none n xs h = let e : length xs - n ≡ 0 = omega arith in rw e refl

  pub trim_front-eq-take_last : (n : ℕ) (xs : List A) → trim_front n xs ≡ take_last n xs
  unfolding trim_front
  trim_front-eq-take_last n [] = sym (drop_none n [] (omega arith))
  trim_front-eq-take_last n (x ∷ xs) = elim (Bool-cases (ltb n (suc (length xs)))) [
    | inl e ↦ rw e (trim_front-eq-take_last n xs ∙ sym (drop_excess n x xs (ground arith)))
    | inr e ↦ rw e (sym (drop_none n (x ∷ xs) (ground arith)))
  ]

  pub length-trim_front : (n : ℕ) (xs : List A) → length (trim_front n xs) ≡ min n (length xs)
  unfolding trim_front
  length-trim_front n [] = omega arith
  length-trim_front n (x ∷ xs) = ground (arith, length-trim_front n xs)

  -- What has been pushed out of a window never comes back.
  pub trim_front_again :
      (n : ℕ) (xs ys : List A) → trim_front n (trim_front n xs ++ ys) ≡ trim_front n (xs ++ ys)
  unfolding trim_front
  trim_front_again n [] ys = refl
  trim_front_again n (x ∷ xs) ys = ground (arith, trim_front_again n xs ys, length-append xs ys)

  drop-nil : (n : ℕ) → (let xs : List A = [] in drop n xs) ≡ []
  drop-nil zero = refl
  drop-nil (suc n) = refl

  pub drop-drop : (m n : ℕ) (xs : List A) → drop m (drop n xs) ≡ drop (n + m) xs
  drop-drop m zero xs = ap (λ k. drop k xs) (omega arith)
  drop-drop m (suc n) [] = drop-nil m ∙ sym (drop-nil (suc n + m))
  drop-drop m (suc n) (x ∷ xs) =
      let e : suc n + m ≡ suc (n + m) = omega arith in rw e (drop-drop m n xs)

  pub drop-length : (xs : List A) → drop (length xs) xs ≡ []
  drop-length [] = refl
  drop-length (x ∷ xs) = drop-length xs

  pub drop-append : (n : ℕ) (xs ys : List A) → n ≤ length xs → drop n (xs ++ ys) ≡ drop n xs ++ ys
  drop-append zero xs ys h = refl
  drop-append (suc n) [] ys h = absurd (omega arith)
  drop-append (suc n) (x ∷ xs) ys h = drop-append n xs ys (omega arith)

module _ {A : Type 0} where
  -- Membership with the place kept.
  abbrev pub In : A → List A → Type 0
  In a [] = ⊥
  In a (x ∷ xs) = (a ≡ x) ⊎ In a xs

  pub All-In {κ} : (P : A → Type κ) (a : A) (xs : List A) → All P xs → In a xs → P a
  All-In P a [] h m = absurd m
  All-In P a (x ∷ xs) h (inl e) = rw e h.0
  All-In P a (x ∷ xs) h (inr m) = All-In P a xs h.1 m

  pub In-append_left : (a : A) (xs ys : List A) → In a xs → In a (xs ++ ys)
  In-append_left a [] ys m = absurd m
  In-append_left a (x ∷ xs) ys (inl e) = inl e
  In-append_left a (x ∷ xs) ys (inr m) = inr (In-append_left a xs ys m)

  pub In-append_right : (a : A) (xs ys : List A) → In a ys → In a (xs ++ ys)
  In-append_right a [] ys m = m
  In-append_right a (x ∷ xs) ys m = inr (In-append_right a xs ys m)

  pub In-append_cases : (a : A) (xs ys : List A) → In a (xs ++ ys) → In a xs ⊎ In a ys
  In-append_cases a [] ys m = inr m
  In-append_cases a (x ∷ xs) ys (inl e) = inl (inl e)
  In-append_cases a (x ∷ xs) ys (inr m) = elim (In-append_cases a xs ys m) [
    | inl l ↦ inl (inr l)
    | inr r ↦ inr r
  ]
