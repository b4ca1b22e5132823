-- ===== src/Net/Reading.antt =====
-- crates/owlsentry-daemon/src/monitors/net.rs: what the monitor reads of /proc, the arguments of
-- firewall-cmd, and what `run` takes from the configuration and the rules. What the system answers
-- is an argument.
use owl_sentry.Base.{
  ℕ, Bool, true, false, Option, none, some, List, [], ◌∷◌, ◌++◌, ◌>>=◌, if◌then◌else◌, or_default,
  ◌==◌, nat_eq, list_eq, pair_eq, insert, insert_set,
}
use owl_sentry.Text.{Text, codes, format, strip_prefix, trim}
use owl_sentry.Text.Lines.{lines}
use owl_sentry.Text.Numbers.{parse_u64, parse_i32, show_nat, int_eq, ℤ}
use owl_sentry.Net.Addr.{addr_eq, IpAddr, v4, v6}
use owl_sentry.Net.Line.{parse_proc_net_line, TcpConn, Parsed, parsed, refused, panics}
use owl_sentry.Net.Monitor.{NetCfg}
use owl_sentry.Config.Types
use owl_sentry.Config.Rules.{NetRules}

-- A line that is refused is left out; a panic ends the reading.
abbrev pub keep : Parsed TcpConn → Parsed (List TcpConn) → Parsed (List TcpConn)
keep panics rest = panics
keep refused rest = rest
keep (parsed conn) (parsed conns) = parsed (conn ∷ conns)
keep (parsed conn) rest = rest

-- `filter_map` over the lines of a file
unfoldable pub conns_of : Bool → List Text → Parsed (List TcpConn)
unfolding parse_proc_net_line
conns_of is_v6 [] = parsed []
conns_of is_v6 (l ∷ ls) = keep (parse_proc_net_line l is_v6) (conns_of is_v6 ls)

-- One of the two files; one that cannot be read adds nothing.
unfoldable pub read_file : Bool → Option Text → Parsed (List TcpConn)
unfolding conns_of
read_file is_v6 none = parsed []
read_file is_v6 (some content) = conns_of is_v6 (lines content)

abbrev pub join : Parsed (List TcpConn) → Parsed (List TcpConn) → Parsed (List TcpConn)
join panics rest = panics
join refused rest = rest
join (parsed conns) (parsed more) = parsed (conns ++ more)
join (parsed conns) rest = rest

-- `read_proc_net`, from the contents of /proc/net/tcp and /proc/net/tcp6
unfoldable pub read_proc_net : Option Text → Option Text → Parsed (List TcpConn)
unfolding read_file
read_proc_net tcp tcp6 = join (read_file false tcp) (read_file true tcp6)

-- An entry of /proc: its name if it is UTF-8, the targets of its descriptors if they can be listed
-- (`none` for a link that cannot be read), and its `comm`.
pub record ProcEntry : Type 0 where
  pub name : Option Text
  pub fds : Option (List (Option Text))
  pub comm : Option Text

abbrev pub Owner : Type 0
Owner = ℤ × Text

-- `strip_suffix(']')`
unfoldable pub strip_bracket : Text → Option Text
strip_bracket [] = none
strip_bracket (c ∷ []) = if c == b']' then some [] else none
strip_bracket (c ∷ d ∷ cs) = elim (strip_bracket (d ∷ cs)) [ none ↦ none | some r ↦ some (c ∷ r) ]

-- The inode that a link to a socket names
unfoldable pub inode_of : Text → Option ℕ
unfolding strip_bracket
inode_of target = strip_prefix (codes "socket:[") target >>= strip_bracket >>= parse_u64

unfoldable pub add_links : Owner → List (Option Text) → List (ℕ × Owner) → List (ℕ × Owner)
unfolding inode_of
add_links owner [] owners = owners
add_links owner (target ∷ targets) owners = elim (target >>= inode_of) [
  | none ↦ add_links owner targets owners
  | some inode ↦ add_links owner targets (insert inode owner owners)
]

abbrev pub comm_of : ProcEntry → Text
comm_of e = elim e.comm [ none ↦ [] | some s ↦ trim s ]

-- The entry of a process whose descriptors can be listed
unfoldable pub add_entry : ProcEntry → List (ℕ × Owner) → List (ℕ × Owner)
unfolding add_links
add_entry e owners = elim (e.name >>= parse_i32) [
  | none ↦ owners
  | some pid ↦ add_links (pid, comm_of e) (or_default [] e.fds) owners
]

unfoldable pub add_entries : List ProcEntry → List (ℕ × Owner) → List (ℕ × Owner)
unfolding add_entry
add_entries [] owners = owners
add_entries (e ∷ es) owners = add_entries es (add_entry e owners)

-- `socket_inode_owners`
unfoldable pub socket_inode_owners : Option (List ProcEntry) → List (ℕ × Owner)
unfolding add_entries
socket_inode_owners none = []
socket_inode_owners (some entries) = add_entries entries []

abbrev pub family : IpAddr → Text
family (v4 bytes) = codes "ipv4"
family (v6 bytes) = codes "ipv6"

-- The arguments of the call in `firewalld_block`
unfoldable pub firewall_args :
    (show_ip : IpAddr → Text) (ip : IpAddr) (duration_secs : ℕ) → List Text
firewall_args show_ip ip duration_secs =
    format (
      codes "--add-rich-rule=rule family="
      ∷ family ip
      ∷ codes " source address="
      ∷ show_ip ip
      ∷ codes " drop"
      ∷ [])
    ∷ format (codes "--timeout=" ∷ show_nat duration_secs ∷ [])
    ∷ []

-- `firewalld_block`: whether it returns `Ok`, by the success of a command that could be started
unfoldable pub firewalld_block : Option Bool → Bool
firewalld_block none = false
firewalld_block (some success) = success

-- The addresses among the texts, as a set
unfoldable pub addresses : (parse_ip : Text → Option IpAddr) → List Text → List IpAddr
addresses parse_ip [] = []
addresses parse_ip (t ∷ ts) = elim (parse_ip t) [
  | none ↦ addresses parse_ip ts
  | some ip ↦ insert_set ip (addresses parse_ip ts)
]

-- What the loop of `run` reads of its arguments
unfoldable pub net_config :
    (parse_ip : Text → Option IpAddr) → owl_sentry.Config.Types.NetCfg → NetRules → NetCfg
unfolding addresses
net_config parse_ip cfg rules = record {
  port_scan_threshold = cfg.port_scan_threshold;
  port_scan_window_secs = cfg.port_scan_window_secs;
  alert_new_listener = cfg.alert_new_listener;
  firewalld_block = cfg.firewalld_block;
  block_duration_secs = cfg.block_duration_secs;
  never_block = addresses parse_ip rules.never_block;
  suspicious_ports = rules.suspicious_ports;
  shell_processes = rules.shell_processes;
}
