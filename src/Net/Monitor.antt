-- ===== src/Net/Monitor.antt =====
-- crates/owlsentry-daemon/src/monitors/net.rs: `run`, one turn of its loop at a time. What a turn
-- reads (the connections with the instants at which they are looked at, the owners of the sockets,
-- whether firewalld obeys) is its sample. Sets are iterated in the order of their lists.
use Prim.Native.Nat.{max}
use owl_sentry.Base.{
  ℕ, ◌*◌, Bool, true, false, not, ◌&&◌, Option, none, some, List, [], ◌∷◌, ◌++◌, ltb, leb,
  if◌then◌else◌, length, filter, ◌==◌, nat_eq, list_eq, pair_eq, contains, insert_set, lookup,
}
use owl_sentry.Text.{Text, codes, format}
use owl_sentry.Text.Numbers.{int_eq, show_nat, show_int, ℤ}
use owl_sentry.Alert.Types.{with_meta, DateTime, Alert, medium, high, network}
use owl_sentry.I18n.{Lang}
use owl_sentry.Messages.Network.{
  new_listener, port_scan, shell_connection, suspicious_port_connection,
}
use owl_sentry.Channel.{emit, alert_of, for_each, Env, Outbox}
use owl_sentry.Net.Addr.{addr_eq, is_local, IpAddr}
use owl_sentry.Net.Line.{tcp_established, tcp_syn_recv, tcp_listen, TcpConn}
use owl_sentry.Net.Tracker.{record_probe, forget, ScanTracker}

-- The fields of `NetCfg` and `NetRules` that the loop reads; `never_block` holds the addresses that
-- could be parsed.
pub record NetCfg : Type 0 where
  pub port_scan_threshold : ℕ
  pub port_scan_window_secs : ℕ
  pub alert_new_listener : Bool
  pub firewalld_block : Bool
  pub block_duration_secs : ℕ
  pub never_block : List IpAddr
  pub suspicious_ports : List ℕ
  pub shell_processes : List Text

-- The sliding window: at least a second, in nanoseconds, as instants are.
abbrev pub window_of : NetCfg → ℕ
window_of cfg = max cfg.port_scan_window_secs 1 * 1000000000

-- A sampled connection, and the instant at which the tracker would record it.
abbrev pub Seen : Type 0
Seen = TcpConn × ℕ

pub record Sample : Type 0 where
  pub conns : List Seen
  pub owners : List (ℕ × (ℤ × Text))
  pub block_works : IpAddr → Bool

-- The variables of the loop, with the calls of `firewall-cmd` made so far.
pub record Monitor : Type 0 where
  pub known_listeners : List ℕ
  pub baseline_done : Bool
  pub tracker : ScanTracker
  pub reported_scans : List IpAddr
  pub reported_shell_conns : List (ℤ × ℕ)
  pub reported_susp_ports : List (IpAddr × ℕ)
  pub firewall_calls : List (IpAddr × ℕ)
  pub out : Outbox

unfoldable pub new_monitor : Monitor
new_monitor = record {
  known_listeners = [];
  baseline_done = false;
  tracker = record { probes = [] };
  reported_scans = [];
  reported_shell_conns = [];
  reported_susp_ports = [];
  firewall_calls = [];
  out = record { sent = []; is_open = true };
}

-- The ports in state LISTEN, as a set
unfoldable pub listeners : List Seen → List ℕ
listeners [] = []
listeners (c ∷ cs) =
    if c.0.state == tcp_listen then insert_set c.0.local_port (listeners cs) else listeners cs

unfoldable pub difference : List ℕ → List ℕ → List ℕ
difference xs ys = filter (λ x. not (contains x ys)) xs

-- A set that has grown too large is emptied.
unfoldable pub bounded {ℓ} : {A : Type ℓ} → List A → List A
bounded xs = if ltb 10000 (length xs) then [] else xs

unfoldable pub show_bool : Bool → Text
show_bool true = codes "true"
show_bool false = codes "false"

-- The sets of what was reported, at the end of a turn that goes so far.
unfoldable pub trim_sets : Monitor → Monitor
unfolding bounded
trim_sets m =
    if m.out.is_open
    then record m {
      reported_scans = bounded m.reported_scans;
      reported_shell_conns = bounded m.reported_shell_conns;
      reported_susp_ports = bounded m.reported_susp_ports;
    }
    else m

abbrev pub in_state : ℕ → List Seen → List Seen
in_state st = filter (λ c. c.0.state == st)

-- `show_addr` is the `Display` of `IpAddr`.
module _ (env : Env) (show_addr : IpAddr → Text) (cfg : NetCfg) (lang : Lang) where
  unfoldable pub announce_listener : ℕ → Monitor → Monitor
  announce_listener port m = record m {
    out =
        emit env
          (λ now. with_meta (codes "proto") (codes "tcp") (
            with_meta (codes "port") (show_nat port)
              (alert_of medium network (new_listener lang (codes "tcp") port) now)))
          m.out;
  }

  unfoldable pub check_listeners : List Seen → Monitor → Monitor
  unfolding announce_listener listeners difference
  check_listeners conns m =
      let heard = listeners conns in
      let told =
        if m.baseline_done && cfg.alert_new_listener
        then for_each (λ s. s.out) announce_listener (difference heard m.known_listeners) m
        else m in
      if told.out.is_open
      then record told { known_listeners = heard; baseline_done = true }
      else told

  unfoldable pub scan_alert : IpAddr → ℕ → Bool → DateTime → Alert
  scan_alert ip distinct blocked now = with_meta (codes "blocked") (show_bool blocked) (
      with_meta (codes "distinct_ports") (show_nat distinct) (
        with_meta (codes "ip") (show_addr ip)
          (alert_of high network (port_scan lang (show_addr ip) distinct blocked) now)))

  -- An address that has reached the threshold and was not reported yet.
  unfoldable pub report_scan : (IpAddr → Bool) → IpAddr → ℕ → Monitor → Monitor
  unfolding scan_alert
  report_scan block_works ip distinct m =
      let wanted = cfg.firewalld_block && not (contains ip cfg.never_block) in
      record m {
        tracker = forget ip m.tracker;
        reported_scans = insert_set ip m.reported_scans;
        firewall_calls =
            if wanted
            then m.firewall_calls ++ ((ip, cfg.block_duration_secs) ∷ [])
            else m.firewall_calls;
        out = emit env (scan_alert ip distinct (wanted && block_works ip)) m.out;
      }

  -- One connection in state SYN_RECV
  unfoldable pub check_syn : (IpAddr → Bool) → Seen → Monitor → Monitor
  unfolding report_scan record_probe
  check_syn block_works (conn, now) m =
      let ip = conn.remote_addr in
      let r = record_probe ip conn.local_port (window_of cfg) now m.tracker in
      let recorded = record m { tracker = r.0 } in
      if is_local ip
      then m
      else if leb cfg.port_scan_threshold r.1 && not (contains ip m.reported_scans)
      then report_scan block_works ip r.1 recorded
      else recorded

  remote_of : TcpConn → Text
  remote_of conn = format (show_addr conn.remote_addr ∷ codes ":" ∷ show_nat conn.remote_port ∷ [])

  unfoldable pub check_port : TcpConn → Monitor → Monitor
  unfolding remote_of
  check_port conn m =
      if contains conn.remote_port cfg.suspicious_ports
        && not (contains (conn.remote_addr, conn.remote_port) m.reported_susp_ports)
      then record m {
        reported_susp_ports = insert_set (conn.remote_addr, conn.remote_port) m.reported_susp_ports;
        out =
            emit env
              (λ now. with_meta (codes "remote") (remote_of conn) (
                alert_of high network
                  (suspicious_port_connection lang (remote_of conn) conn.remote_port) now))
              m.out;
      }
      else m

  unfoldable pub check_owner : TcpConn → Option (ℤ × Text) → Monitor → Monitor
  unfolding remote_of
  check_owner conn none m = m
  check_owner conn (some (pid, comm)) m =
      if contains comm cfg.shell_processes
        && not (contains (pid, conn.remote_port) m.reported_shell_conns)
      then record m {
        reported_shell_conns = insert_set (pid, conn.remote_port) m.reported_shell_conns;
        out =
            emit env
              (λ now. with_meta (codes "remote") (remote_of conn) (
                with_meta (codes "comm") comm (
                  with_meta (codes "pid") (show_int pid)
                    (alert_of high network (shell_connection lang comm pid (remote_of conn)) now))))
              m.out;
      }
      else m

  -- One established connection
  unfoldable pub check_established : List (ℕ × (ℤ × Text)) → Seen → Monitor → Monitor
  unfolding check_port check_owner
  check_established owners (conn, now) m =
      let ported = check_port conn m in
      if ported.out.is_open then check_owner conn (lookup conn.inode owners) ported else ported

  -- The connections in state SYN_RECV, in turn
  unfoldable pub check_scans : Sample → Monitor → Monitor
  unfolding check_syn
  check_scans sample m =
      for_each (λ s. s.out) (check_syn sample.block_works) (in_state tcp_syn_recv sample.conns) m

  -- The established connections to other hosts, in turn
  unfoldable pub check_connections : Sample → Monitor → Monitor
  unfolding check_established
  check_connections sample m =
      for_each (λ s. s.out) (check_established sample.owners)
        (filter (λ c. not (is_local c.0.remote_addr)) (in_state tcp_established sample.conns)) m

  -- One turn of the loop. After a failed send the function has returned.
  unfoldable pub tick : Sample → Monitor → Monitor
  unfolding check_listeners check_scans check_connections trim_sets
  tick sample m =
      trim_sets (check_connections sample (check_scans sample (check_listeners sample.conns m)))

  -- `run`, over the samples of its turns
  unfoldable pub run : List Sample → Monitor → Monitor
  unfolding tick
  run samples m = for_each (λ s. s.out) tick samples m
