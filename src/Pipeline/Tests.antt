-- ===== src/Pipeline/Tests.antt =====
-- The theorems of the way from the daemon to the window at sample inputs.
use owl_sentry.Gui.Connect.{attempts, start_gui, default_gui_args, Attempt}
use owl_sentry.Pipeline.Reconnect.{after, attempts-disconnects}
use owl_sentry.Daemon.Run
use owl_sentry.Server.Stream.{streamed}
use owl_sentry.Server.{on_event, open_session}
use owl_sentry.Alert.Types.{severity_ge, rank, with_meta}
use owl_sentry.Channel.{alert_of}
use owl_sentry.FilePath.{is_prefix, components, path_starts_with}
use owl_sentry.Text.{split_on}
use owl_sentry.Fs.{path_starts_with_any, sensitive_alert, sensitive_severity, FsRules, remove_file}
use owl_sentry.Fs.Monitor.{on_path, new_monitor, is_muted}
use owl_sentry.Gui.Client.{urgency_of, read_lines, notify}
use owl_sentry.Gui.Retained.{Answered, places}
use owl_sentry.Pipeline.Window.{lines_of, all_events, event_of}
use owl_sentry.Pipeline.Arrival.{arrival-shown, arrival-notified}
use owl_sentry.Pipeline.FileChange.{change-notified}
use owl_sentry.Text.Lines.{drop_cr, lines}
use owl_sentry.Ipc.Wire.{wire, IsOneLine}
use owl_sentry.Gui.App.{drain_events, new_app}
use owl_sentry.Pipeline.Socket.{window_over, window_over-torn}
use owl_sentry.Pipeline.Handshake.{read_text, IsSound, requests-subscribe}
use owl_sentry.Gui.Connect.{requests_text}
use owl_sentry.Gui.Client.{first_requests}
use owl_sentry.Ipc.{ClientRequest}
use owl_sentry.Server.{running}
use owl_sentry.Samples.{open_env}
use owl_sentry.Base.{
  ◌⊎◌, ◌++◌, map, lookup, inl, In, ◌∷◌, [], false, ◌≡◌, ◌≤◌, refl, true, All, none, some, List,
  Option, arith, nat_eq, list_eq, pair_eq, if◌then◌else◌, count,
}
use owl_sentry.Text.{Text, codes, text_beq, byte_len, trim, is_whitespace}
use owl_sentry.Alert.Types.{Alert, high, network}
use owl_sentry.Ipc.{DaemonMessage, subscribe, get_recent, default_recent_limit}
use owl_sentry.State.{new_state, DaemonState, recent_alerts, record_alert}
use owl_sentry.State.Windows.{record_all}
use owl_sentry.I18n.{fr}
use owl_sentry.Server.{Decoded, request, invalid}
use owl_sentry.Server.World.{World, Reach, accepted}
use owl_sentry.Gui.Duplicates.{same_id}
use owl_sentry.Pipeline.Window.{IsReadable, window_of}
use owl_sentry.Pipeline.Race.{answered, AreRequests, window_shows_twice}
use owl_sentry.Samples.{utc, at_secs, sample_alert, three_alerts}

abbrev letters : Text → Decoded
letters t =
    if text_beq t (codes "s")
    then request subscribe
    else if text_beq t (codes "r")
    then request (get_recent default_recent_limit)
    else invalid (codes "?")

are_requests : AreRequests letters (codes "s") (codes "r")
unfolding byte_len trim is_whitespace
are_requests = record {
  subscribes = refl;
  asks = refl;
  short = omega arith;
  short' = omega arith;
  full = refl;
  full' = refl;
}

abbrev before : DaemonState
before = record_all utc three_alerts (new_state (at_secs 0) 2)

abbrev a1 : Alert
a1 = sample_alert 4 5000 high network

abbrev answers : List DaemonMessage
answers = answered utc letters (codes "0.1.0") (codes "fr") (record_alert utc a1 before) a1

-- A line of one letter for each message, and its reading back.
abbrev one_letter : DaemonMessage → Text
one_letter (DaemonMessage.hello v p l) = codes "h"
one_letter (DaemonMessage.alert a) = codes "a"
one_letter (DaemonMessage.recent log) = codes "r"
one_letter _ = codes "x"

abbrev read_letter : Text → Option DaemonMessage
read_letter t =
    if text_beq t (codes "h")
    then some (DaemonMessage.hello (codes "0.1.0") 1 (codes "fr"))
    else if text_beq t (codes "a")
    then some (DaemonMessage.alert a1)
    else if text_beq t (codes "r")
    then some (DaemonMessage.recent (recent_alerts 500 (record_alert utc a1 before)))
    else none

readable : All (IsReadable one_letter read_letter) answers
unfolding trim is_whitespace
readable = (
  record { reads_back = refl; is_full = refl },
  (
    record { reads_back = refl; is_full = refl },
    (record { reads_back = refl; is_full = refl }, tt),
  ),
)

window_shows_twice_example :
    (w : World) × Reach utc letters
      (accepted (codes "0.1.0") (codes "fr") true (record_alert utc a1 before) (some a1))
      w
    × (2 ≤ count (same_id a1) (window_of one_letter read_letter true fr w.session.sent).alerts)
unfolding record_all record_alert new_state
window_shows_twice_example =
    window_shows_twice utc letters one_letter read_letter true fr (codes "0.1.0") (codes "fr")
      (codes "s") (codes "r") before a1 readable are_requests (omega arith)

-- Refused, then a connection with one alert, then one whose requests cannot be written.
abbrev three_attempts : List Attempt
three_attempts =
    let good : Attempt = record {
      connects = true;
      writes_subscribe = true;
      writes_recent = true;
      clones = true;
      lines = (codes "h", true) ∷ (codes "a", true) ∷ [];
    } in
    record good { connects = false } ∷ good ∷ record good { writes_recent = false } ∷ []

attempts-disconnects_example :
    (after (attempts read_letter three_attempts) (start_gui default_gui_args).app).is_connected
    ≡ false
attempts-disconnects_example = attempts-disconnects read_letter default_gui_args three_attempts

-- The messages of the first client of the daemon's run, one letter each
abbrev read_run : Text → Option DaemonMessage
read_run t =
    if text_beq t (codes "h")
    then some (DaemonMessage.hello (codes "0.1.0") 1 (codes "fr"))
    else some (DaemonMessage.alert Run.a1)

run_sent-IsReadable : All (IsReadable one_letter read_run) Run.c2.session.sent
unfolding trim is_whitespace open_session on_event byte_len
run_sent-IsReadable = (
  record { reads_back = refl; is_full = refl },
  (record { reads_back = refl; is_full = refl }, tt),
)

arrival-shown_example :
    (b : Alert) × In b (window_of one_letter read_run true fr Run.c2.session.sent).alerts
    × (b.id ≡ 1)
    × ((b ≡ Run.a1) ⊎ ⊥)
unfolding open_session on_event byte_len trim is_whitespace streamed all_events places event_of
    Answered
arrival-shown_example =
    arrival-shown utc Run.subscribes (codes "0.1.0") (codes "fr") (at_secs 0) 10 Run.d5 Run.c2
      Run.d5-Reach (inl refl) refl (λ e. absurd (cc e)) refl refl (omega arith) [] [] true Run.a0
      refl (omega arith) one_letter read_run run_sent-IsReadable true fr (omega arith)

arrival-notified_example :
    In
      (notify Run.a1 (urgency_of Run.a1))
      (read_lines read_run (lines_of one_letter true Run.c2.session.sent))
unfolding open_session on_event byte_len trim is_whitespace streamed sensitive_alert
    sensitive_severity alert_of rank with_meta
arrival-notified_example =
    arrival-notified utc Run.subscribes (codes "0.1.0") (codes "fr") (at_secs 0) 10 Run.d5 Run.c2
      Run.d5-Reach (inl refl) refl (λ e. absurd (cc e)) refl refl (omega arith) [] [] true Run.a0
      refl (omega arith) one_letter read_run run_sent-IsReadable refl

abbrev shadow_rules : FsRules
shadow_rules = record {
  sensitive_paths = codes "/etc/shadow" ∷ [];
  suspicious_extensions = [];
  suspicious_dirs = [];
  ignore_paths = [];
}

change-notified_example :
    (a : Alert) × ((on_path open_env 0 shadow_rules fr remove_file
        (codes "/etc/shadow", 5)
        new_monitor).out.sent
      ≡ a ∷ [])
    × (severity_ge a.severity high ≡ true)
    × (let b = record a { id = 1 } in
        In
          (notify b (urgency_of b))
          (read_lines read_run (lines_of one_letter true Run.c2.session.sent)))
unfolding open_session on_event byte_len trim is_whitespace streamed new_monitor is_muted components
    split_on path_starts_with path_starts_with_any is_prefix lookup
change-notified_example =
    change-notified open_env 0 shadow_rules fr remove_file (codes "/etc/shadow") 5 new_monitor refl
      refl refl refl refl utc Run.subscribes (codes "0.1.0") (codes "fr") (at_secs 0) 10 Run.d5
      Run.c2 Run.d5-Reach (inl refl) refl (λ e. absurd (cc e)) refl refl (omega arith) [] [] true
      refl (omega arith) one_letter read_run run_sent-IsReadable

answers-IsOneLine : All IsOneLine (map one_letter answers)
unfolding drop_cr
answers-IsOneLine = (
  record { no_feed = (refl, tt); no_return = refl },
  (
    record { no_feed = (refl, tt); no_return = refl },
    (record { no_feed = (refl, tt); no_return = refl }, tt),
  ),
)

window_over-torn_example :
    window_over read_letter true fr (wire (map one_letter answers) ++ codes "{")
    ≡ drain_events (all_events answers) (new_app fr)
window_over-torn_example =
    window_over-torn one_letter read_letter true fr answers (codes "{") readable answers-IsOneLine
      (refl, tt) refl

abbrev one_word : ClientRequest → Text
one_word subscribe = codes "s"
one_word (get_recent limit) = codes "r"
one_word _ = codes "x"

one_word-IsSound : All (IsSound one_word letters) first_requests
unfolding drop_cr byte_len trim is_whitespace first_requests
one_word-IsSound = (
  record {
    one_line = record { no_feed = (refl, tt); no_return = refl };
    short = omega arith;
    full = refl;
    reads_back = refl;
  },
  (
    record {
      one_line = record { no_feed = (refl, tt); no_return = refl };
      short = omega arith;
      full = refl;
      reads_back = refl;
    },
    tt,
  ),
)

requests-subscribe_example :
    read_text letters before
      (lines (requests_text one_word))
      (open_session (codes "0.1.0") (codes "fr") true)
    ≡ record {
      subscribed = true;
      status = running;
      sent =
          DaemonMessage.hello (codes "0.1.0") 1 (codes "fr")
          ∷ DaemonMessage.recent (recent_alerts 500 before)
          ∷ [];
    }
requests-subscribe_example =
    requests-subscribe one_word letters (codes "0.1.0") (codes "fr") before one_word-IsSound
