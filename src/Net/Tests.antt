-- ===== src/Net/Tests.antt =====
-- Tests of the network monitor, and its theorems at sample inputs.
use owl_sentry.Net.RoundTrip.{Rest, IsRest, Padding, render, parse_proc_net_line-render}
use owl_sentry.Net.Reading.{ProcEntry, socket_inode_owners, read_proc_net}
use owl_sentry.Net.Owners.{Owns, socket_inode_owners_sound}
use owl_sentry.Net.Ascii.{Returns, Anything}
use owl_sentry.Net.Files.{read_proc_net-Returns}
use owl_sentry.Base.{
  some, In, insert, ◌-◌, ◌≤◌, ◌≡◌, refl, true, false, none, List, [], ◌∷◌, arith, length, nat_eq,
  list_eq, pair_eq, lookup,
}
use owl_sentry.Text.{
  trim, strip_prefix, Text, codes, byte_len, is_whitespace, ends_with, split_once, split_whitespace,
}
use owl_sentry.Text.Numbers.{pos, parse_i32, from_str_radix, parse_u64, int_eq}
use owl_sentry.I18n.{en}
use owl_sentry.Channel.{emit, for_each}
use owl_sentry.Net.Addr.{addr_eq, is_local, IpAddr, v4}
use owl_sentry.Net.Line.{tcp_syn_recv, tcp_listen, parse_proc_net_line, TcpConn, parsed}
use owl_sentry.Net.Tracker.{Probe, probe, ScanTracker}
use owl_sentry.Net.Monitor.{
  new_monitor, trim_sets, announce_listener, check_listeners, check_syn, check_scans,
  check_connections, tick, run, NetCfg, Sample, Monitor,
}
use owl_sentry.Net.Windows.{record_probe-forgets}
use owl_sentry.Net.Memory.{Remembered, run-Remembered}
use owl_sentry.Net.Safety.{AllAllowed, run-AllAllowed, tick_bounds}
use owl_sentry.Samples.{open_env}

abbrev peer : IpAddr
peer = v4 (203 ∷ 0 ∷ 113 ∷ 7 ∷ [])

-- The unit test `parse_v4_listen_line`
v4_listen :
    parse_proc_net_line
      (codes
        "   0: 0100007F:0277 00000000:0000 0A 00000000:00000000 00:00000000 00000000     0        0 12345 1")
      false
    ≡ parsed (record {
      local_addr = v4 (127 ∷ 0 ∷ 0 ∷ 1 ∷ []);
      local_port = 631;
      remote_addr = v4 (0 ∷ 0 ∷ 0 ∷ 0 ∷ []);
      remote_port = 0;
      state = tcp_listen;
      inode = 12345;
    })
unfolding parse_proc_net_line split_whitespace is_whitespace ends_with split_once from_str_radix
    parse_u64 byte_len
v4_listen = refl

abbrev scanned : List Probe
scanned = (3, 1000) ∷ (4, 1001) ∷ []

abbrev tracker : ScanTracker
tracker = record { probes = (peer, scanned) ∷ [] }

record_probe-forgets_example : length (probe 81 30 30 (probe 80 30 (30 - 1) (probe 80 30 0 []))) ≡ 1
record_probe-forgets_example = record_probe-forgets 80 81 30 (omega arith) (omega arith)

abbrev cfg : NetCfg
cfg = record {
  port_scan_threshold = 1;
  port_scan_window_secs = 30;
  alert_new_listener = true;
  firewalld_block = true;
  block_duration_secs = 3600;
  never_block = v4 (127 ∷ 0 ∷ 0 ∷ 1 ∷ []) ∷ [];
  suspicious_ports = 4444 ∷ [];
  shell_processes = codes "bash" ∷ [];
}

abbrev probing : TcpConn
probing = record {
  local_addr = v4 (10 ∷ 0 ∷ 0 ∷ 1 ∷ []);
  local_port = 22;
  remote_addr = peer;
  remote_port = 50000;
  state = tcp_syn_recv;
  inode = 0;
}

abbrev sample : Sample
sample = record { conns = (probing, 5) ∷ []; owners = []; block_works = λ _. true }

abbrev no_name : IpAddr → Text
no_name _ = codes "?"

run-AllAllowed_example :
    AllAllowed open_env no_name cfg en
      (run open_env no_name cfg en (sample ∷ sample ∷ []) new_monitor)
run-AllAllowed_example = run-AllAllowed open_env no_name cfg en (sample ∷ sample ∷ [])

abbrev reported : Monitor
reported = record {
  known_listeners = [];
  baseline_done = true;
  tracker = tracker;
  reported_scans = peer ∷ [];
  reported_shell_conns = [];
  reported_susp_ports = [];
  firewall_calls = [];
  out = record { sent = []; is_open = true };
}

abbrev after_tick : Monitor
after_tick = tick open_env no_name cfg en sample reported

tick_bounds_example :
    (length after_tick.reported_scans ≤ 10000)
    × (length after_tick.reported_shell_conns ≤ 10000)
    × (length after_tick.reported_susp_ports ≤ 10000)
unfolding tick check_listeners check_scans check_connections trim_sets for_each announce_listener
    emit check_syn is_local probe lookup
tick_bounds_example = tick_bounds open_env no_name cfg en sample reported refl

run-Remembered_example :
    Remembered open_env no_name cfg en peer
      (run open_env no_name cfg en (sample ∷ sample ∷ []) reported)
unfolding lookup
run-Remembered_example =
    run-Remembered open_env no_name cfg en peer (sample ∷ sample ∷ []) reported (λ e. cc)

-- Two processes; the descriptor of the second is a socket.
abbrev entries : List ProcEntry
entries =
    record { name = some (codes "self"); fds = some []; comm = none }
    ∷ record {
      name = some (codes "42");
      fds = some (some (codes "/dev/null") ∷ none ∷ some (codes "socket:[7]") ∷ []);
      comm = some (codes "sshd ");
    }
    ∷ []

socket_inode_owners_sound_example : (e : ProcEntry) × In e entries × Owns e (pos 42, codes "sshd") 7
unfolding socket_inode_owners parse_i32 lookup trim is_whitespace strip_prefix parse_u64 insert
socket_inode_owners_sound_example = socket_inode_owners_sound entries 7 (pos 42, codes "sshd") refl

read_proc_net-Returns_example : Returns Anything (read_proc_net (some (codes "1: x\n")) none)
read_proc_net-Returns_example =
    read_proc_net-Returns (some (codes "1: x\n")) none
      (omega arith, (omega arith, (omega arith, (omega arith, (omega arith, tt))))) tt

-- A listener, and the other words of its line
abbrev a_conn : TcpConn
a_conn = record {
  local_addr = v4 (127 ∷ 0 ∷ 0 ∷ 1 ∷ []);
  local_port = 8080;
  remote_addr = v4 (0 ∷ 0 ∷ 0 ∷ 0 ∷ []);
  remote_port = 0;
  state = 10;
  inode = 7;
}

abbrev a_rest : Rest
a_rest = record {
  slot = codes "0";
  queues = codes "0";
  timer = codes "0";
  retransmits = codes "0";
  uid = codes "0";
  timeout = codes "0";
  inode = codes "7";
  more = codes "1" ∷ [];
}

a_rest-IsRest : IsRest a_conn a_rest
unfolding is_whitespace parse_u64
a_rest-IsRest = (
  (refl, tt),
  (
    (refl, (refl, tt)),
    (
      (refl, (refl, tt)),
      (
        (refl, (refl, tt)),
        ((refl, (refl, tt)), ((refl, (refl, tt)), ((refl, (refl, tt)), ((refl, (refl, tt)), tt)))),
      ),
    ),
  ),
  refl,
)

-- The padding of the line in the unit tests
abbrev a_padding : Padding
a_padding = record { before = 3; gaps = 0 ∷ 0 ∷ 0 ∷ 0 ∷ 0 ∷ 0 ∷ 4 ∷ 7 ∷ []; trail = 0 }

parse_proc_net_line-render_example :
    parse_proc_net_line (render a_conn a_rest a_padding) false ≡ parsed a_conn
parse_proc_net_line-render_example =
    parse_proc_net_line-render false a_conn a_rest a_padding
      (
        (omega arith, omega arith, omega arith, omega arith, tt),
        omega arith,
        (omega arith, omega arith, omega arith, omega arith, tt),
        omega arith,
        omega arith,
      )
      a_rest-IsRest
