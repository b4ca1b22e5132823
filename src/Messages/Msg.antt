-- ===== src/Messages/Msg.antt =====
-- crates/owlsentry-daemon/src/messages.rs: the texts of one alert.
use owl_sentry.Text.{Text}

pub record Msg : Type 0 where
  pub title : Text
  pub what : Text
  pub why : Text
  pub how : Text
