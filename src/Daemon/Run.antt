-- ===== src/Daemon/Run.antt =====
-- A run of the daemon: a client connects and subscribes, the alert of a removed file arrives and is
-- delivered to it, and another client connects.
use owl_sentry.Base.{refl, true, none, some, [], ◌∷◌, nat_eq, list_eq, pair_eq}
use owl_sentry.Text.{Text, codes, byte_len, trim, is_whitespace}
use owl_sentry.Alert.Types.{Alert}
use owl_sentry.I18n.{fr}
use owl_sentry.Ipc.{subscribe}
use owl_sentry.Fs.{sensitive_alert, remove_file}
use owl_sentry.Server.{on_event, open_session, Decoded, request, line, received}
use owl_sentry.Server.World
use owl_sentry.Dispatcher.{start}
use owl_sentry.Daemon.{
  hear, begin, new_client, started, Client, Daemon, receives, broadcasts, accepts, serves, Reach,
  here, next,
}
use owl_sentry.Samples.{utc, at_secs}

-- Every line is a subscription.
abbrev pub subscribes : Text → Decoded
subscribes t = request subscribe

abbrev pub fresh : Client
fresh = new_client (codes "0.1.0") (codes "fr") true 0

-- One that connects behind the alert
abbrev pub late : Client
late = record fresh { joined = 1 }

abbrev pub a0 : Alert
a0 = sensitive_alert remove_file (codes "/etc/shadow") fr (at_secs 7)

abbrev pub a1 : Alert
a1 = record a0 { id = 1 }

-- A client connects and subscribes.
abbrev pub d1 : Daemon
d1 = record (started (at_secs 0) 10) { clients = fresh ∷ [] }

abbrev pub c1 : Client
c1 = record fresh {
  session = on_event subscribes d1.dispatcher.state true (line (codes "s")) fresh.session;
}

abbrev pub d2 : Daemon
d2 = record d1 { clients = c1 ∷ [] }

-- An alert arrives, is broadcast and is delivered.
abbrev pub d3 : Daemon
d3 = record d2 {
  dispatcher = begin utc true a0 d2.dispatcher;
  pending = some a1;
  arrivals = (true, a0) ∷ [];
}

abbrev pub d4 : Daemon
d4 = record d3 {
  dispatcher = record d3.dispatcher { broadcast = a1 ∷ [] };
  pending = none;
  clients = hear a1 c1 ∷ [];
}

abbrev pub c2 : Client
c2 = record (hear a1 c1) {
  queue = [];
  session = on_event subscribes d4.dispatcher.state true (received a1) c1.session;
}

-- Another client connects.
abbrev pub d5 : Daemon
d5 = record d4 { clients = c2 ∷ late ∷ [] }

pub d5-Reach : Reach utc subscribes (codes "0.1.0") (codes "fr") (started (at_secs 0) 10) d5
unfolding start open_session on_event byte_len trim is_whitespace
d5-Reach =
    next
      (next
        (next
          (next
            (next (next here (accepts true))
              (serves [] [] fresh c1 refl refl refl (World.reads true (codes "s") refl)))
            (receives true a0 refl))
          (broadcasts a1 refl))
        (serves [] [] (hear a1 c1) c2 refl refl refl (World.delivers true a1 [] refl refl refl)))
      (accepts true)
