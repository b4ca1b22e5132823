-- ===== src/Samples.antt =====
-- Values that the tests of the modules share.
use owl_sentry.Base.{ℕ, true, Option, some, List, [], ◌∷◌, nat_eq, list_eq, pair_eq}
use owl_sentry.Text.{codes}
use owl_sentry.Alert.Types.{DateTime, Alert, Severity, info, high, Category, network, system}
use owl_sentry.Channel.{Env}

abbrev pub utc : ℕ → ℕ → Option DateTime
utc s n = some (record { secs = s; nanos = n })

abbrev pub at_secs : ℕ → DateTime
at_secs s = record { secs = s; nanos = 0 }

abbrev pub sample_alert : ℕ → ℕ → Severity → Category → Alert
sample_alert n s severity category = record {
  id = n;
  timestamp = at_secs s;
  severity = severity;
  category = category;
  title = codes "t";
  what = codes "w";
  why = codes "y";
  how = codes "h";
  metadata = [];
}

abbrev pub three_alerts : List Alert
three_alerts =
    sample_alert 0 10 high system
    ∷ sample_alert 0 20 high network
    ∷ sample_alert 0 4000 info system
    ∷ []

-- Every send succeeds, and time stands still.
abbrev pub open_env : Env
open_env = record { accepts = λ _. true; clock = λ _. at_secs 7 }
