-- ===== src/Base/Equality.antt =====
-- Equality tests as an interface, and the sets that the monitors keep.
use Prim.Native.Nat.{ℕ}
use mathlib.Core.Bool.{Bool, true, false, ◌&&◌, ◌||◌}
use mathlib.Core.List.{List, [], ◌∷◌}
use mathlib.Core.Logic.{◌↔◌, inl, inr, ◌≢◌}
use mathlib.Core.Path.{◌≡◌, refl}
use native.Mathlib.Omega.{arith}
use owl_sentry.Base.Lists.{In, filter}
use owl_sentry.Base.Tests.{nat_beq, nat_beq_iff, if◌then◌else◌, Bool-cases}

infix 50 ◌==◌
pub record Eq {ℓ} (K : Type ℓ) : Type ℓ where
  pub beq : K → K → Bool
  pub beq_iff : (i j : K) → (beq i j ≡ true) ↔ (i ≡ j)

instance abbrev pub nat_eq : Eq ℕ
nat_eq = record { beq = nat_beq; beq_iff = nat_beq_iff }

abbrev pub ◌==◌ {ℓ} : {K : Type ℓ} ⦃test : Eq K⦄ → K → K → Bool
◌==◌ ⦃test⦄ = test.beq

abbrev pub list_beq {ℓ} : {A : Type ℓ} ⦃e : Eq A⦄ → List A → List A → Bool
list_beq [] [] = true
list_beq (x ∷ xs) (y ∷ ys) = x == y && list_beq xs ys
list_beq _ _ = false

pub list_beq_iff {ℓ} :
    {A : Type ℓ} ⦃e : Eq A⦄ (xs ys : List A) → (list_beq xs ys ≡ true) ↔ (xs ≡ ys)
list_beq_iff ⦃e⦄ (x ∷ xs) (y ∷ ys) = ground (arith, list_beq_iff xs ys, e.beq_iff x y)
list_beq_iff _ _ = ground arith

instance abbrev pub list_eq {ℓ} : {A : Type ℓ} ⦃e : Eq A⦄ → Eq (List A)
list_eq = record { beq = list_beq; beq_iff = list_beq_iff }

abbrev pub pair_beq {ℓ κ} : {A : Type ℓ} {B : Type κ} ⦃e : Eq A⦄ ⦃f : Eq B⦄ → A × B → A × B → Bool
pair_beq p q = p.0 == q.0 && p.1 == q.1

pub pair_beq_iff {ℓ κ} :
    {A : Type ℓ} {B : Type κ} ⦃e : Eq A⦄ ⦃f : Eq B⦄ (p q : A × B) → (pair_beq p q ≡ true) ↔ (p ≡ q)
pair_beq_iff ⦃e⦄ ⦃f⦄ (a, b) (c, d) = ground (arith, e.beq_iff a c, f.beq_iff b d)

instance abbrev pub pair_eq {ℓ κ} : {A : Type ℓ} {B : Type κ} ⦃e : Eq A⦄ ⦃f : Eq B⦄ → Eq (A × B)
pair_eq = record { beq = pair_beq; beq_iff = pair_beq_iff }

module _ {ℓ} {A : Type ℓ} ⦃e : Eq A⦄ where
  pub eq_refl : (a : A) → (a == a) ≡ true
  eq_refl a = (e.beq_iff a a).1 refl

  pub ne_false : (a b : A) → a ≢ b → (a == b) ≡ false
  ne_false a b h = elim (Bool-cases (a == b)) [
    | inl t ↦ absurd (h ((e.beq_iff a b).0 t))
    | inr f ↦ f
  ]

  abbrev pub contains : A → List A → Bool
  contains a [] = false
  contains a (x ∷ xs) = a == x || contains a xs

  -- `HashSet::insert`.
  abbrev pub insert_set : A → List A → List A
  insert_set a xs = if contains a xs then xs else a ∷ xs

  pub contains-insert_set :
      (a b : A) (xs : List A) → contains a (insert_set b xs) ≡ (a == b || contains a xs)
  contains-insert_set a b xs = ground (arith, e.beq_iff a b)

  pub contains-filter :
      (p : A → Bool) (a : A) (xs : List A) → contains a (filter p xs) ≡ (contains a xs && p a)
  contains-filter p a [] = refl
  contains-filter p a (x ∷ xs) = ground (arith, contains-filter p a xs, e.beq_iff a x)

module _ {A : Type 0} ⦃e : Eq A⦄ where
  pub contains_iff : (a : A) (xs : List A) → (contains a xs ≡ true) ↔ In a xs
  contains_iff a [] = (λ h. cc, λ m. absurd m)
  contains_iff a (x ∷ xs) = ground (arith, contains_iff a xs, e.beq_iff a x)
