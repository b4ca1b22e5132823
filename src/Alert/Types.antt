-- ===== src/Alert/Types.antt =====
-- crates/owlsentry-common/src/alert.rs: severities, categories and alerts. The clock is read by the
-- caller, who passes the instant to `new_alert`.
use owl_sentry.Base.{ℕ, Bool, List, [], ◌∷◌, ltb, leb, nat_eq, list_eq, pair_eq, insert}
use owl_sentry.Text.{Text, codes}

pub data Severity : Type 0 where
  info low medium high critical : Severity

-- The discriminant, by which the derived order compares.
unfoldable pub rank : Severity → ℕ
rank info = 0
rank low = 1
rank medium = 2
rank high = 3
rank critical = 4

abbrev pub severity_lt : Severity → Severity → Bool
severity_lt a b = ltb (rank a) (rank b)

abbrev pub severity_ge : Severity → Severity → Bool
severity_ge a b = leb (rank b) (rank a)

unfoldable pub severity_str : Severity → Text
severity_str info = codes "info"
severity_str low = codes "low"
severity_str medium = codes "medium"
severity_str high = codes "high"
severity_str critical = codes "critical"

-- `Severity::ALL`, from the least severe on
abbrev pub all_severities : List Severity
all_severities = info ∷ low ∷ medium ∷ high ∷ critical ∷ []

pub data Category : Type 0 where
  selinux filesystem network process audit system : Category

unfoldable pub category_rank : Category → ℕ
category_rank selinux = 0
category_rank filesystem = 1
category_rank network = 2
category_rank process = 3
category_rank audit = 4
category_rank system = 5

unfoldable pub category_str : Category → Text
category_str selinux = codes "selinux"
category_str filesystem = codes "filesystem"
category_str network = codes "network"
category_str process = codes "process"
category_str audit = codes "audit"
category_str system = codes "system"

-- `Category::ALL`
abbrev pub all_categories : List Category
all_categories = selinux ∷ filesystem ∷ network ∷ process ∷ audit ∷ system ∷ []

-- An instant of UTC behind 1970: whole seconds, and the nanoseconds behind them.
pub record DateTime : Type 0 where
  pub secs : ℕ
  pub nanos : ℕ

pub record Alert : Type 0 where
  pub id : ℕ
  pub timestamp : DateTime
  pub severity : Severity
  pub category : Category
  pub title : Text
  pub what : Text
  pub why : Text
  pub how : Text
  pub metadata : List (Text × Text)

-- `Alert::new`, at the instant `now`
unfoldable pub new_alert : DateTime → Severity → Category → Text → Text → Text → Text → Alert
new_alert now severity category title what why how = record {
  id = 0;
  timestamp = now;
  severity = severity;
  category = category;
  title = title;
  what = what;
  why = why;
  how = how;
  metadata = [];
}

-- `Alert::with_meta`
unfoldable pub with_meta : Text → Text → Alert → Alert
with_meta key value a = record a { metadata = insert key value a.metadata }
