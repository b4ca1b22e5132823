-- ===== src/Base/Maps.antt =====
-- Maps as association lists. Every reader of a map in the sources asks for a key, so the order of
-- the entries stands for nothing.
use mathlib.Core.List.{List, [], ◌∷◌}
use mathlib.Core.Option.{Option, none, some}
use mathlib.Core.Path.{◌≡◌, refl}
use native.Mathlib.Omega.{arith}
use owl_sentry.Base.Equality.{Eq, ◌==◌, eq_refl}
use owl_sentry.Base.Tests.{if◌then◌else◌}

module _ {ℓ κ} {K : Type ℓ} {V : Type κ} ⦃e : Eq K⦄ where
  unfoldable pub lookup : (wanted : K) (entries : List (K × V)) → Option V
  lookup wanted [] = none
  lookup wanted ((key, value) ∷ rest) = if wanted == key then some value else lookup wanted rest

  unfoldable pub insert : (key : K) (value : V) (entries : List (K × V)) → List (K × V)
  insert key value [] = (key, value) ∷ []
  insert key value ((other, w) ∷ rest) =
      if key == other then (key, value) ∷ rest else (other, w) ∷ insert key value rest

  unfoldable pub remove : K → List (K × V) → List (K × V)
  remove k [] = []
  remove k ((j, w) ∷ m) = if k == j then remove k m else (j, w) ∷ remove k m

  pub lookup-insert :
      (key wanted : K) (value : V) (entries : List (K × V))
      → lookup wanted (insert key value entries)
        ≡ (if wanted == key then some value else lookup wanted entries)
  unfolding insert lookup
  lookup-insert key wanted value [] = refl
  lookup-insert key wanted value ((i, w) ∷ rest) = ground (
    e.beq_iff key wanted,
    e.beq_iff key i,
    e.beq_iff wanted key,
    e.beq_iff wanted i,
    arith,
    lookup-insert key wanted value rest,
  )

  pub lookup-insert_self : (k : K) (v : V) (m : List (K × V)) → lookup k (insert k v m) ≡ some v
  lookup-insert_self k v m = rw (lookup-insert k k v m, eq_refl k)

  pub lookup-remove :
      (k j : K) (m : List (K × V)) → lookup j (remove k m) ≡ (if j == k then none else lookup j m)
  unfolding lookup remove
  lookup-remove k j [] = ground arith
  lookup-remove k j ((i, w) ∷ m) =
      ground
        (arith, e.beq_iff k j, e.beq_iff k i, e.beq_iff j k, e.beq_iff j i, lookup-remove k j m)
