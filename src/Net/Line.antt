-- ===== src/Net/Line.antt =====
-- crates/owlsentry-daemon/src/monitors/net.rs: the lines of /proc/net/tcp and /proc/net/tcp6. A slice
-- that does not end between two characters panics, so a line may be refused or make the monitor
-- panic.
use owl_sentry.Base.{
  ℕ, zero, suc, ◌-◌, ◌/◌, ◌%◌, Bool, true, false, not, Option, none, some, List, [], ◌∷◌, ◌++◌, leb,
  if◌then◌else◌, ◌==◌, nat_eq, list_eq, pair_eq,
}
use owl_sentry.Text.{Text, codes, char_len, byte_len, ends_with, split_once, split_whitespace}
use owl_sentry.Text.Numbers.{from_str_radix, parse_u64, int_eq}
use owl_sentry.Net.Addr.{addr_eq, IpAddr, v4, v6}

pub data Parsed (A : Type 0) : Type 0 where
  parsed : A → Parsed A
  refused : Parsed A
  panics : Parsed A

infixl 5 ◌>>=◌
abbrev pub ◌>>=◌ : {A B : Type 0} → Parsed A → (A → Parsed B) → Parsed B
parsed a >>= f = f a
refused >>= f = refused
panics >>= f = panics

-- `?` on an `Option`
abbrev pub lift : {A : Type 0} → Option A → Parsed A
lift none = refused
lift (some a) = parsed a

abbrev pub tcp_established : ℕ
tcp_established = 0x01

abbrev pub tcp_syn_recv : ℕ
tcp_syn_recv = 0x03

abbrev pub tcp_listen : ℕ
tcp_listen = 0x0a

pub record TcpConn : Type 0 where
  pub local_addr : IpAddr
  pub local_port : ℕ
  pub remote_addr : IpAddr
  pub remote_port : ℕ
  pub state : ℕ
  pub inode : ℕ

unfoldable pub parse_hex_port : Text → Option ℕ
parse_hex_port s = from_str_radix 16 65536 s

-- The first `n` bytes of a text and the rest, if `n` bytes end between two characters.
unfoldable pub split_bytes : ℕ → Text → Option (Text × Text)
split_bytes n [] = if n == 0 then some ([], []) else none
split_bytes n (c ∷ cs) =
    if n == 0
    then some ([], c ∷ cs)
    else if leb (char_len c) n
    then elim (split_bytes (n - char_len c) cs) [ none ↦ none | some (a, b) ↦ some (c ∷ a, b) ]
    else none

abbrev pub slice : ℕ → Text → Parsed (Text × Text)
slice n s = elim (split_bytes n s) [ none ↦ panics | some r ↦ parsed r ]

-- `u32::to_le_bytes`
abbrev pub to_le_bytes : ℕ → List ℕ
to_le_bytes v = v % 256 ∷ v / 256 % 256 ∷ v / 65536 % 256 ∷ v / 16777216 % 256 ∷ []

abbrev pub u32_mod : ℕ
u32_mod = 4294967296

-- The loop over the words of an IPv6 address, with the number of words left.
unfoldable pub parse_words : ℕ → Text → Parsed (List ℕ)
parse_words zero s = parsed []
parse_words (suc n) s = slice 8 s >>= λ r. lift (from_str_radix 16 u32_mod r.0) >>= λ value.
    parse_words n r.1 >>= λ bytes. parsed (to_le_bytes value ++ bytes)

unfoldable pub parse_hex_addr : Text → Bool → Parsed IpAddr
unfolding parse_words
parse_hex_addr s true =
    if not (byte_len s == 32) then refused else parse_words 4 s >>= λ bytes. parsed (v6 bytes)
parse_hex_addr s false =
    if not (byte_len s == 8)
    then refused
    else lift (from_str_radix 16 u32_mod s) >>= λ value. parsed (v4 (to_le_bytes value))

-- `fields.next()?`
abbrev pub next_field : List Text → Parsed (Text × List Text)
next_field [] = refused
next_field (w ∷ ws) = parsed (w, ws)

-- The values behind the fields, in the order in which the source evaluates them.
unfoldable pub build_conn : Text → Text → ℕ → ℕ → Bool → Parsed TcpConn
unfolding parse_hex_addr parse_hex_port
build_conn local remote state inode is_v6 = do
  l ← lift (split_once b':' local)
  r ← lift (split_once b':' remote)
  local_addr ← parse_hex_addr l.0 is_v6
  local_port ← lift (parse_hex_port l.1)
  remote_addr ← parse_hex_addr r.0 is_v6
  remote_port ← lift (parse_hex_port r.1)
  parsed (record {
    local_addr = local_addr;
    local_port = local_port;
    remote_addr = remote_addr;
    remote_port = remote_port;
    state = state;
    inode = inode;
  })

-- What follows the first field.
unfoldable pub parse_rest : List Text → Bool → Parsed TcpConn
unfolding build_conn
parse_rest fields is_v6 = next_field fields >>= λ local. next_field local.1 >>= λ remote.
    next_field remote.1 >>= λ st. lift (from_str_radix 16 256 st.0) >>= λ state.
    next_field st.1 >>= λ txrx. next_field txrx.1 >>= λ tr. next_field tr.1 >>= λ retr.
    next_field retr.1 >>= λ uid. next_field uid.1 >>= λ timeout. next_field timeout.1 >>= λ last.
    lift (parse_u64 last.0) >>= λ inode. build_conn local.0 remote.0 state inode is_v6

unfoldable pub parse_proc_net_line : Text → Bool → Parsed TcpConn
unfolding parse_rest
parse_proc_net_line line is_v6 = next_field (split_whitespace line) >>= λ first.
    if not (ends_with (codes ":") first.0) then refused else parse_rest first.1 is_v6
