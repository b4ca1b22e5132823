-- ===== src/Pipeline/FileChange.antt =====
-- A change of a sensitive file, from the file monitor (crates/owlsentry-daemon/src/monitors/fs.rs)
-- to the desktop (crates/owlsentry-gui/src/client.rs).
use owl_sentry.Base.{
  ℕ, ◌+◌, ◌<◌, ◌≡◌, refl, ◌≢◌, Bool, true, false, Option, none, List, [], ◌∷◌, ◌++◌, u64_mod,
  length, In, All, nat_eq, list_eq, pair_eq,
}
use owl_sentry.Text.{Text}
use owl_sentry.Alert.Types.{severity_ge, high, DateTime, Alert, with_meta, rank}
use owl_sentry.I18n.{Lang}
use owl_sentry.Ipc.{DaemonMessage}
use owl_sentry.Channel.{alert_of, emit, Env}
use owl_sentry.FilePath.{components}
use owl_sentry.Fs.{
  classify, path_starts_with_any, sensitive_alert, sensitive_severity, is_create, FsAction, FsRules,
  create, modify, metadata_change, remove_file,
}
use owl_sentry.Fs.Monitor.{fire, is_muted, on_path, Monitor}
use owl_sentry.Server.{Decoded, failed}
use owl_sentry.Server.Stream.{streamed}
use owl_sentry.Daemon.{started, Client, Daemon, Reach}
use owl_sentry.Gui.Client.{urgency_of, read_lines, notify}
use owl_sentry.Pipeline.Window.{IsReadable, lines_of}
use owl_sentry.Pipeline.Arrival.{arrival-notified}

sensitive-severe :
    (action : FsAction) (path : Text) (lang : Lang) (now : DateTime)
    → is_create action ≡ false
    → severity_ge (sensitive_alert action path lang now).severity high ≡ true
unfolding sensitive_alert sensitive_severity alert_of rank with_meta
sensitive-severe create path lang now h = cc
sensitive-severe modify path lang now h = refl
sensitive-severe metadata_change path lang now h = refl
sensitive-severe remove_file path lang now h = refl

module _ (env : Env) (debounce : ℕ) (rules : FsRules) (lang : Lang) (action : FsAction)
    (path : Text) (instant : ℕ) (m : Monitor) (changes : is_create action ≡ false)
    (sensitive : path_starts_with_any path rules.sensitive_paths ≡ true)
    (watched : path_starts_with_any path rules.ignore_paths ≡ false)
    (loud : is_muted debounce (components path) instant m.last_alert ≡ false)
    (accepts : env.accepts (length m.out.sent) ≡ true) where
  change-sent :
      (on_path env debounce rules lang action (path, instant) m).out.sent
      ≡ m.out.sent ++ (sensitive_alert action path lang (env.clock (length m.out.sent)) ∷ [])
  unfolding on_path classify fire emit
  change-sent = rw (loud, watched, sensitive, accepts) refl

  module _ (from_timestamp : ℕ → ℕ → Option DateTime) (decode : Text → Decoded)
      (version language : Text) (now : DateTime) (capacity : ℕ) (h : Daemon) (c : Client)
      (reach : Reach from_timestamp decode version language (started now capacity) h)
      (member : In c h.clients) (lossless : c.lossless ≡ true) (writes : c.session.status ≢ failed)
      (read : c.queue ≡ []) (idle : h.pending ≡ none) (few : length h.arrivals < u64_mod)
      (es ls : List (Bool × Alert)) (fits : Bool)
      (arrives : h.arrivals
        ≡ es ++ ((fits, sensitive_alert action path lang (env.clock (length m.out.sent))) ∷ ls))
      (after : length ls < length (streamed c.session.sent)) (encode : DaemonMessage → Text)
      (read_message : Text → Option DaemonMessage)
      (readable : All (IsReadable encode read_message) c.session.sent) where
    -- A change other than the creation of a sensitive file that is not ignored makes the monitor send an
    -- alert of at least high severity, unless the path is muted or the channel refuses it; and
    -- once that alert has arrived, behind `es`, and a client whose receiver has not lagged and is
    -- empty, whose session has not failed and whose messages are readable has been streamed more
    -- alerts than have arrived since, with nothing pending and notifications enabled, the
    -- client's thread has notified the desktop of it, under its number.
    pub change-notified :
        (a : Alert) × ((on_path env debounce rules lang action (path, instant) m).out.sent
          ≡ m.out.sent ++ (a ∷ []))
        × (severity_ge a.severity high ≡ true)
        × (let b = record a { id = 1 + length es } in
            In
              (notify b (urgency_of b))
              (read_lines read_message (lines_of encode true c.session.sent)))
    change-notified =
        let a = sensitive_alert action path lang (env.clock (length m.out.sent)) in
        let severe = sensitive-severe action path lang (env.clock (length m.out.sent)) changes in
        (
          a,
          change-sent,
          severe,
          arrival-notified from_timestamp decode version language now capacity h c reach member
              lossless writes read idle few es ls fits a arrives after encode read_message readable
              severe,
        )
