-- ===== src/Server/Tests.antt =====
-- The theorems of the session at sample inputs.
use owl_sentry.Base.{
  length, contains, ◌↔◌, ◌≡◌, refl, true, false, none, some, [], ◌∷◌, ◌++◌, arith, if◌then◌else◌,
  nat_eq, list_eq, pair_eq,
}
use owl_sentry.Text.{split_on, Text, text_beq, codes, byte_len, is_whitespace, trim}
use owl_sentry.Alert.Types.{Alert, high, network}
use owl_sentry.State.{new_state, record_alert, DaemonState}
use owl_sentry.State.Windows.{record_all}
use owl_sentry.Ipc.{subscribe, get_recent}
use owl_sentry.Server.{
  open_session, on_event, Session, Decoded, request, invalid, line, received, running,
}
use owl_sentry.Server.World.{
  accepted, World, records, broadcasts, reads, delivers, Reach, here, next,
}
use owl_sentry.FilePath.{components}
use owl_sentry.Server.Socket.{
  serve, has_parent, apply_socket_permissions, apply_calls, Answers, Disk, found, not_found,
}
use owl_sentry.Server.Accept.{accept_loop, connection, accept_error}
use owl_sentry.Server.Access.{User, can_connect, IsGroupMember, can_connect_iff}
use owl_sentry.Server.Delivery.{Reach-Inv, Inv}
use owl_sentry.Samples.{utc, at_secs, sample_alert, three_alerts}

-- A decoder of three requests, by one letter each.
abbrev letters : Text → Decoded
letters t =
    if text_beq t (codes "s")
    then request subscribe
    else if text_beq t (codes "r")
    then request (get_recent 500)
    else invalid (codes "?")

abbrev fresh : Session
fresh = record { subscribed = false; status = running; sent = [] }

abbrev daemon : DaemonState
daemon = record_all utc three_alerts (new_state (at_secs 0) 2)

abbrev opened : World
opened = accepted (codes "0.1.0") (codes "fr") true daemon none

abbrev a1 : Alert
a1 = sample_alert 4 50 high network

-- The client subscribes; an alert is recorded, broadcast and delivered.
abbrev s1 : World
s1 = record opened {
  session = on_event letters opened.daemon true (line (codes "s")) opened.session;
}

abbrev s2 : World
s2 = record s1 { daemon = record_alert utc a1 s1.daemon; pending = some a1 }

abbrev s3 : World
s3 = record s2 {
  pending = none;
  broadcast = s2.broadcast ++ (a1 ∷ []);
  queue = s2.queue ++ (a1 ∷ []);
}

abbrev s4 : World
s4 = record s3 { queue = []; session = on_event letters s3.daemon true (received a1) s3.session }

delivered : Reach utc letters opened s4
unfolding open_session on_event byte_len trim is_whitespace
delivered =
    next
      (next (next (next here (reads true (codes "s") refl)) (records a1 refl)) (broadcasts a1 refl))
      (delivers true a1 [] refl refl refl)

Reach-Inv_example : Inv s4
Reach-Inv_example = Reach-Inv utc letters (codes "0.1.0") (codes "fr") true daemon none delivered

-- Every call succeeds, by a directory of root's group.
abbrev answers : Answers
answers = record {
  create_dir_ok = true;
  chmod_dir_ok = true;
  removal = not_found;
  bind_ok = true;
  bound = record { uid = 0; gid = 0; mode = 0o755 };
  group = found 977;
  chown_ok = true;
  chmod_ok = true;
}

abbrev disk : Disk
disk = record { dir = record { uid = 0; gid = 0; mode = 0o750 }; socket = none }

abbrev prepared : Disk
prepared = record {
  dir = record { uid = 0; gid = 0; mode = 0o750 };
  socket = some (record { uid = 0; gid = 977; mode = 0o660 });
}

abbrev member : User
member = record { uid = 1000; groups = 1000 ∷ 977 ∷ [] }

can_connect_iff_example :
    (can_connect (λ u. true) prepared member ≡ true)
    ↔ ((true ≡ true) × (contains 0 member.groups ≡ true) × IsGroupMember answers.group member)
unfolding serve has_parent components split_on apply_socket_permissions apply_calls
can_connect_iff_example =
    can_connect_iff (λ u. true) (codes "/run/s") answers disk prepared member refl refl refl refl
      (λ e. absurd (ground arith))

-- A connection behind an error is not served.
two_sessions :
    length (
      accept_loop (codes "0.1.0") (codes "fr") (
        connection daemon none true
        ∷ connection daemon none false
        ∷ accept_error
        ∷ connection daemon none true
        ∷ []))
    ≡ 2
unfolding accept_loop
two_sessions = refl
