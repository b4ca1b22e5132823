-- ===== src/Base/Sublists.antt =====
-- A list that is another with some elements left out, in the same order.
use Prim.Native.Nat.{ℕ, zero, suc}
use mathlib.Core.List.{List, [], ◌∷◌, ◌++◌}
use owl_sentry.Base.Lists.{drop}

pub data Subseq {A : Type 0} : List A → List A → Type 0 where
  stop : Subseq [] []
  keep : {xs ys : List A} (x : A) → Subseq xs ys → Subseq (x ∷ xs) (x ∷ ys)
  skip : {xs ys : List A} (y : A) → Subseq xs ys → Subseq xs (y ∷ ys)

module _ {A : Type 0} where
  pub Subseq-refl : (xs : List A) → Subseq xs xs
  Subseq-refl [] = stop
  Subseq-refl (x ∷ xs) = keep x (Subseq-refl xs)

  Subseq-after : {ys zs : List A} → Subseq ys zs → (xs : List A) → Subseq xs ys → Subseq xs zs
  Subseq-after stop xs p = p
  Subseq-after (keep x q) _ (keep {xs = xs} _ p) = keep x (Subseq-after q xs p)
  Subseq-after (keep x q) xs (skip _ p) = skip x (Subseq-after q xs p)
  Subseq-after (skip y q) xs p = skip y (Subseq-after q xs p)

  pub Subseq-trans : {xs ys zs : List A} → Subseq xs ys → Subseq ys zs → Subseq xs zs
  Subseq-trans {xs} p q = Subseq-after q xs p

  pub Subseq-append_left :
      {xs ys : List A} (ps : List A) → Subseq xs ys → Subseq (ps ++ xs) (ps ++ ys)
  Subseq-append_left [] s = s
  Subseq-append_left (p ∷ ps) s = keep p (Subseq-append_left ps s)

  pub Subseq-append_right :
      {xs ys : List A} (zs : List A) → Subseq xs ys → Subseq (xs ++ zs) (ys ++ zs)
  Subseq-append_right zs stop = Subseq-refl zs
  Subseq-append_right zs (keep x s) = keep x (Subseq-append_right zs s)
  Subseq-append_right zs (skip y s) = skip y (Subseq-append_right zs s)

  pub Subseq-drop : (n : ℕ) (xs : List A) → Subseq (drop n xs) xs
  Subseq-drop zero xs = Subseq-refl xs
  Subseq-drop (suc n) [] = stop
  Subseq-drop (suc n) (x ∷ xs) = skip x (Subseq-drop n xs)
