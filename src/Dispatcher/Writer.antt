-- ===== src/Dispatcher/Writer.antt =====
-- crates/owlsentry-daemon/src/logging.rs: `AlertWriter::write` on the texts of the files
-- `alerts.jsonl.YYYY-MM-DD`, each of its writes with its own error. The appender of `rolling::daily`
-- appends each write to the file of its day, which an earlier run of that day may have begun. serde's
-- writing of an alert is the parameter `encode`.
use owl_sentry.Base.{
  ℕ, Bool, true, false, List, [], ◌∷◌, ◌++◌, next_u64, if◌then◌else◌, nat_eq, ◌==◌, list_eq,
  pair_eq,
}
use owl_sentry.Text.{Text}
use owl_sentry.Alert.Types.{Alert}

-- How `write` ends: at the serialisation or the lock, with some of the line written, with the line
-- and not its end, at the flush, or well.
pub data WriteEnd : Type 0 where
  unserialised : WriteEnd
  poisoned : WriteEnd
  torn : (piece : Text) → WriteEnd
  unended : WriteEnd
  unflushed : WriteEnd
  done : WriteEnd

-- The text of the file of each day
abbrev pub Files : Type 0
Files = ℕ → Text

unfoldable pub append_on : ℕ → Text → Files → Files
append_on day piece files d = if d == day then files d ++ piece else files d

-- A call of `write`, with the days on which it writes the line and the line feed.
pub record Call : Type 0 where
  pub ends : WriteEnd
  pub line_day : ℕ
  pub feed_day : ℕ
  pub alert : Alert

module _ (encode : Alert → Text) where
  unfoldable pub line_and_feed : Call → Files → Files
  unfolding append_on
  line_and_feed c files =
      append_on c.feed_day (10 ∷ []) (append_on c.line_day (encode c.alert) files)

  -- The texts of the files, and whether `write` succeeds
  unfoldable pub write_line : WriteEnd → Call → Files → Files × Bool
  unfolding append_on line_and_feed
  write_line unserialised c files = (files, false)
  write_line poisoned c files = (files, false)
  write_line (torn piece) c files = (append_on c.line_day piece files, false)
  write_line unended c files = (append_on c.line_day (encode c.alert) files, false)
  write_line unflushed c files = (line_and_feed c files, false)
  write_line done c files = (line_and_feed c files, true)

  -- The writes of the dispatcher's loop, of the alerts as it numbers them
  unfoldable pub journal : ℕ → List Call → Files → Files
  unfolding write_line
  journal n [] files = files
  journal n (c ∷ calls) files =
      journal (next_u64 n) calls
        (write_line c.ends (record c { alert = record c.alert { id = n } }) files).0
