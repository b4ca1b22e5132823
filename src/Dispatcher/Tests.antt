-- ===== src/Dispatcher/Tests.antt =====
-- The dispatcher's theorems at a batch of which one line cannot be written.
use owl_sentry.Ipc.Wire.{wire}
use owl_sentry.Base.{
  ℕ, zero, suc, Subseq, ◌+◌, refl, ◌≡◌, Bool, true, false, List, [], ◌∷◌, nat_eq, list_eq, pair_eq,
}
use owl_sentry.Alert.Types.{Alert, low, high, audit, system}
use owl_sentry.State.{new_state}
use owl_sentry.State.Windows.{record_all}
use owl_sentry.Dispatcher.{run, start}
use owl_sentry.Dispatcher.Ids.{numbered, alerts, written, run-start}
use owl_sentry.Text.{format, Text, codes, split_on, push_front}
use owl_sentry.Text.Lines.{lines, drop_cr}
use owl_sentry.Dispatcher.Writer.{WriteEnd, done, poisoned, Call, Files, journal}
use owl_sentry.Dispatcher.Journal.{as_fits, lines-journal}
use owl_sentry.Samples.{utc, at_secs, sample_alert}

abbrev batch : List (Bool × Alert)
batch = (true, sample_alert 0 10 high system) ∷ (false, sample_alert 0 20 low audit) ∷ []

run-start_example :
    ((run utc batch (start (at_secs 0) 2)).broadcast ≡ alerts (numbered 1 batch))
    × ((run utc batch (start (at_secs 0) 2)).state
        ≡ record_all utc (alerts (numbered 1 batch)) (new_state (at_secs 0) 2))
    × ((run utc batch (start (at_secs 0) 2)).writer.lines ≡ written (numbered 1 batch))
run-start_example = run-start utc (at_secs 0) 2 batch

-- A line of two characters for each alert: `A`, and a letter for its number.
abbrev short_line : Alert → Text
short_line a = b'A' ∷ (b'a' + a.id) ∷ []

abbrev call : WriteEnd → ℕ → Alert → Call
call ends day a = record { ends = ends; line_day = day; feed_day = day; alert = a }

-- Two days, of which the second has a line of an earlier run.
abbrev calls : List Call
calls =
    call done 1 (sample_alert 0 10 high system)
    ∷ call poisoned 2 (sample_alert 0 20 low audit)
    ∷ call done 2 (sample_alert 0 30 low audit)
    ∷ []

abbrev files : Files
files = elim [ zero ↦ [] | suc n ↦ elim n [ zero ↦ [] | suc k ↦ codes "Az\n" ] ]

lines-journal_example :
    (lines (journal short_line 1 calls files 2) ≡ codes "Az" ∷ codes "Ad" ∷ [])
    × Subseq
        (record (sample_alert 0 30 low audit) { id = 3 } ∷ [])
        (run utc (as_fits calls) (start (at_secs 0) 2)).writer.lines
unfolding numbered drop_cr wire format
lines-journal_example =
    lines-journal short_line 2 utc (at_secs 0) 2 calls files (codes "Az" ∷ []) refl
      (record { no_feed = (refl, (refl, tt)); no_return = refl }, tt) (refl, (tt, (refl, tt)))
      (record { no_feed = (refl, (refl, tt)); no_return = refl }, tt)

journal_runs : lines (journal short_line 1 calls files 1) ≡ codes "Ab" ∷ []
unfolding journal lines split_on push_front
journal_runs = refl
