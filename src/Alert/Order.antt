-- ===== src/Alert/Order.antt =====
-- The severities and categories as keys: the derived equality, and the names, which tell them
-- apart.
use owl_sentry.Base.{
  ℕ, suc, ◌+◌, ◌≡◌, refl, ◌↔◌, Bool, true, List, [], ◌∷◌, arith, if◌then◌else◌, length, count, ◌==◌,
  nat_eq, list_eq, pair_eq,
}
use owl_sentry.Text.{text_beq}
use owl_sentry.Alert.Types.{
  rank, severity_str, category_rank, category_str, Alert, Severity, info, low, medium, high,
  critical, Category, selinux, filesystem, network, process, audit, system,
}

-- The derived `PartialEq`, on the discriminants.
unfoldable pub severity_beq : Severity → Severity → Bool
severity_beq a b = rank a == rank b

unfoldable pub category_beq : Category → Category → Bool
category_beq a b = category_rank a == category_rank b

pub severity_str-beq :
    (a b : Severity) → text_beq (severity_str a) (severity_str b) ≡ severity_beq a b
unfolding severity_str severity_beq rank
severity_str-beq info info = refl
severity_str-beq info _ = refl
severity_str-beq low info = refl
severity_str-beq low _ = refl
severity_str-beq medium info = refl
severity_str-beq medium _ = refl
severity_str-beq high info = refl
severity_str-beq high _ = refl
severity_str-beq critical info = refl
severity_str-beq critical _ = refl

pub category_str-beq :
    (a b : Category) → text_beq (category_str a) (category_str b) ≡ category_beq a b
unfolding category_str category_beq category_rank
category_str-beq selinux selinux = refl
category_str-beq selinux _ = refl
category_str-beq filesystem selinux = refl
category_str-beq filesystem _ = refl
category_str-beq network selinux = refl
category_str-beq network _ = refl
category_str-beq process selinux = refl
category_str-beq process _ = refl
category_str-beq audit selinux = refl
category_str-beq audit _ = refl
category_str-beq system selinux = refl
category_str-beq system _ = refl

-- Each alert has one of the five severities, and one of the six categories.
pub count_severities :
    (log : List Alert)
    → count (λ a. severity_beq info a.severity) log
        + count (λ a. severity_beq low a.severity) log
        + count (λ a. severity_beq medium a.severity) log
        + count (λ a. severity_beq high a.severity) log
        + count (λ a. severity_beq critical a.severity) log
      ≡ length log
unfolding severity_beq rank
count_severities [] = refl
count_severities (a ∷ log) = one a.severity _ _ _ _ _ _ (count_severities log)
  where
    one :
        (s : Severity) (i l m h c n : ℕ)
        → i + l + m + h + c ≡ n
        → (if severity_beq info s then suc i else i)
            + (if severity_beq low s then suc l else l)
            + (if severity_beq medium s then suc m else m)
            + (if severity_beq high s then suc h else h)
            + (if severity_beq critical s then suc c else c)
          ≡ suc n
    one info _ _ _ _ _ _ e = omega arith
    one low _ _ _ _ _ _ e = omega arith
    one medium _ _ _ _ _ _ e = omega arith
    one high _ _ _ _ _ _ e = omega arith
    one critical _ _ _ _ _ _ e = omega arith

pub count_categories :
    (log : List Alert)
    → count (λ a. category_beq selinux a.category) log
        + count (λ a. category_beq filesystem a.category) log
        + count (λ a. category_beq network a.category) log
        + count (λ a. category_beq process a.category) log
        + count (λ a. category_beq audit a.category) log
        + count (λ a. category_beq system a.category) log
      ≡ length log
unfolding category_beq category_rank
count_categories [] = refl
count_categories (a ∷ log) = one a.category _ _ _ _ _ _ _ (count_categories log)
  where
    one :
        (k : Category) (s f n p u y t : ℕ)
        → s + f + n + p + u + y ≡ t
        → (if category_beq selinux k then suc s else s)
            + (if category_beq filesystem k then suc f else f)
            + (if category_beq network k then suc n else n)
            + (if category_beq process k then suc p else p)
            + (if category_beq audit k then suc u else u)
            + (if category_beq system k then suc y else y)
          ≡ suc t
    one selinux _ _ _ _ _ _ _ e = omega arith
    one filesystem _ _ _ _ _ _ _ e = omega arith
    one network _ _ _ _ _ _ _ e = omega arith
    one process _ _ _ _ _ _ _ e = omega arith
    one audit _ _ _ _ _ _ _ e = omega arith
    one system _ _ _ _ _ _ _ e = omega arith

pub severity_beq_iff : (a b : Severity) → (severity_beq a b ≡ true) ↔ (a ≡ b)
unfolding severity_beq rank
severity_beq_iff info b = ground arith
severity_beq_iff low b = ground arith
severity_beq_iff medium b = ground arith
severity_beq_iff high b = ground arith
severity_beq_iff critical b = ground arith

pub category_beq_iff : (a b : Category) → (category_beq a b ≡ true) ↔ (a ≡ b)
unfolding category_beq category_rank
category_beq_iff selinux b = ground arith
category_beq_iff filesystem b = ground arith
category_beq_iff network b = ground arith
category_beq_iff process b = ground arith
category_beq_iff audit b = ground arith
category_beq_iff system b = ground arith
