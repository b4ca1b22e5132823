-- ===== src/Net/RoundTrip.antt =====
-- A line of /proc/net/tcp as the kernel writes it, and its reading.
use owl_sentry.Base.{
  ℕ, ◌<◌, ◌≡◌, refl, ◌∙◌, arith, Bool, true, false, some, List, [], ◌∷◌, ◌++◌, All, All-append,
  nat_eq, list_eq, pair_eq,
}
use owl_sentry.Text.{Text, codes, is_whitespace, is_empty, split_whitespace, ends_with, split_once}
use owl_sentry.Text.Laws.{
  Lacks, IsWord, blanks, spread, split_whitespace-blanks, split_whitespace-spread,
  split_once-append,
}
use owl_sentry.Text.Numbers.{from_str_radix, parse_u64, read_digits}
use owl_sentry.Net.Addr.{IpAddr}
use owl_sentry.Net.Line.{build_conn, parse_rest, parse_proc_net_line, parsed, TcpConn}
use owl_sentry.Net.Hex.{hex2, port_text, from_hex2, parse_hex_port-port_text}
use owl_sentry.Net.HexAddr.{
  IsAddr, hex2-IsHex, IsHex-Lacks_colon, IsHex-Lacks_blank, addr_text, parse_hex_addr-addr_text,
  addr_text-IsHex, port_text-IsHex,
}

endpoint : IpAddr → ℕ → Text
unfolding addr_text
endpoint a port = addr_text a ++ (b':' ∷ port_text port)

-- The words of a line that the parser does not keep, and the text of the inode.
pub record Rest : Type 0 where
  pub slot : Text
  pub queues : Text
  pub timer : Text
  pub retransmits : Text
  pub uid : Text
  pub timeout : Text
  pub inode : Text
  pub more : List Text

-- The words of the line of a connection, behind the first
unfoldable line_words : TcpConn → Rest → List Text
unfolding endpoint
line_words c r =
    endpoint c.local_addr c.local_port
    ∷ endpoint c.remote_addr c.remote_port
    ∷ hex2 c.state
    ∷ r.queues
    ∷ r.timer
    ∷ r.retransmits
    ∷ r.uid
    ∷ r.timeout
    ∷ r.inode
    ∷ r.more

-- The blanks that pad the columns: those before the line, those between two words beside the one
-- that is always there, and those at the end.
pub record Padding : Type 0 where
  pub before : ℕ
  pub gaps : List ℕ
  pub trail : ℕ

unfoldable pub render : TcpConn → Rest → Padding → Text
unfolding line_words blanks spread
render c r p =
    blanks p.before ++ ((r.slot ++ (b':' ∷ [])) ++ spread p.trail p.gaps (line_words c r))

-- A connection that the file can hold
abbrev pub IsConn : Bool → TcpConn → Type 0
IsConn is_v6 c =
    IsAddr is_v6 c.local_addr
    × (c.local_port < 65536)
    × IsAddr is_v6 c.remote_addr
    × (c.remote_port < 65536)
    × (c.state < 256)

-- The other words hold no blanks, and the inode is that of the connection.
abbrev pub IsRest : TcpConn → Rest → Type 0
IsRest c r =
    Lacks is_whitespace r.slot
    × All IsWord (r.queues ∷ r.timer ∷ r.retransmits ∷ r.uid ∷ r.timeout ∷ r.inode ∷ r.more)
    × (parse_u64 r.inode ≡ some c.inode)

Lacks-append : (p : ℕ → Bool) (s t : Text) → Lacks p s → Lacks p t → Lacks p (s ++ t)
Lacks-append p s t h k = All-append (λ c. p c ≡ false) s t h k

-- The line of an endpoint is a word.
endpoint-IsWord :
    (is_v6 : Bool) (a : IpAddr) (port : ℕ)
    → IsAddr is_v6 a
    → port < 65536
    → IsWord (endpoint a port)
unfolding endpoint is_whitespace
endpoint-IsWord is_v6 a port h k = (
  not_empty (addr_text a) (port_text port),
  Lacks-append is_whitespace (addr_text a) (b':' ∷ port_text port)
      (IsHex-Lacks_blank (addr_text a) (addr_text-IsHex is_v6 a h))
      (refl, IsHex-Lacks_blank (port_text port) (port_text-IsHex port k)),
)
  where
    not_empty : (s t : Text) → is_empty (s ++ (b':' ∷ t)) ≡ false
    not_empty [] t = refl
    not_empty (c ∷ s) t = refl

split_endpoint :
    (is_v6 : Bool) (a : IpAddr) (port : ℕ)
    → IsAddr is_v6 a
    → split_once b':' (endpoint a port) ≡ some (addr_text a, port_text port)
unfolding endpoint
split_endpoint is_v6 a port h =
    split_once-append b':' (addr_text a) (port_text port)
      (IsHex-Lacks_colon (addr_text a) (addr_text-IsHex is_v6 a h))

parse_state : (n : ℕ) → n < 256 → from_str_radix 16 256 (hex2 n) ≡ some n
unfolding read_digits
parse_state n h = from_hex2 256 n [] h h

build_conn-endpoints :
    (is_v6 : Bool) (c : TcpConn)
    → IsConn is_v6 c
    → build_conn
        (endpoint c.local_addr c.local_port)
        (endpoint c.remote_addr c.remote_port)
        c.state
        c.inode
        is_v6
      ≡ parsed c
unfolding build_conn
build_conn-endpoints is_v6 c (la, lp, ra, rp, s) =
    rw
      (
        split_endpoint is_v6 c.local_addr c.local_port la,
        split_endpoint is_v6 c.remote_addr c.remote_port ra,
        parse_hex_addr-addr_text is_v6 c.local_addr la,
        parse_hex_port-port_text c.local_port lp,
        parse_hex_addr-addr_text is_v6 c.remote_addr ra,
        parse_hex_port-port_text c.remote_port rp,
      )
      refl

slot-IsWord : (s : Text) → Lacks is_whitespace s → IsWord (s ++ (b':' ∷ []))
unfolding is_whitespace
slot-IsWord [] h = (refl, (refl, tt))
slot-IsWord (c ∷ s) h = (refl, Lacks-append is_whitespace (c ∷ s) (b':' ∷ []) h (refl, tt))

ends_with-colon : (s : Text) → ends_with (codes ":") (s ++ (b':' ∷ [])) ≡ true
unfolding ends_with
ends_with-colon [] = refl
ends_with-colon (c ∷ s) = ground (arith, ends_with-colon s)

line_words-IsWord :
    (is_v6 : Bool) (c : TcpConn) (r : Rest)
    → IsConn is_v6 c
    → IsRest c r
    → All IsWord (line_words c r)
unfolding line_words
line_words-IsWord is_v6 c r (la, lp, ra, rp, s) (slot, words, inode) = (
  endpoint-IsWord is_v6 c.local_addr c.local_port la lp,
  (
    endpoint-IsWord is_v6 c.remote_addr c.remote_port ra rp,
    ((refl, IsHex-Lacks_blank (hex2 c.state) (hex2-IsHex c.state s)), words),
  ),
)

parse_rest-words :
    (is_v6 : Bool) (c : TcpConn) (r : Rest) (l e : Text)
    → parse_u64 r.inode ≡ some c.inode
    → c.state < 256
    → parse_rest
        (l
          ∷ e
          ∷ hex2 c.state
          ∷ r.queues
          ∷ r.timer
          ∷ r.retransmits
          ∷ r.uid
          ∷ r.timeout
          ∷ r.inode
          ∷ r.more)
        is_v6
      ≡ build_conn l e c.state c.inode is_v6
unfolding parse_rest
parse_rest-words is_v6 c r l e h k = rw (parse_state c.state k, h) refl

parse_line-words :
    (is_v6 : Bool) (line first : Text) (ws : List Text)
    → split_whitespace line ≡ first ∷ ws
    → ends_with (codes ":") first ≡ true
    → parse_proc_net_line line is_v6 ≡ parse_rest ws is_v6
unfolding parse_proc_net_line
parse_line-words is_v6 line first ws h k = rw (h, k) refl

-- A line of /proc/net/tcp or /proc/net/tcp6 that shows a connection is read as this connection,
-- however its columns are padded with blanks, if its other words hold no blanks and its inode is
-- written as a number.
pub parse_proc_net_line-render :
    (is_v6 : Bool) (c : TcpConn) (r : Rest) (p : Padding)
    → IsConn is_v6 c
    → IsRest c r
    → parse_proc_net_line (render c r p) is_v6 ≡ parsed c
unfolding render line_words
parse_proc_net_line-render is_v6 c r p k h =
    let slot = r.slot ++ (b':' ∷ []) in
    parse_line-words is_v6 (render c r p) slot _
      (split_whitespace-blanks p.before (slot ++ spread p.trail p.gaps (line_words c r))
        ∙ split_whitespace-spread p.trail p.gaps slot (line_words c r) (slot-IsWord r.slot h.0)
            (line_words-IsWord is_v6 c r k h))
      (ends_with-colon r.slot)
    ∙ parse_rest-words is_v6 c r (endpoint c.local_addr c.local_port)
        (endpoint c.remote_addr c.remote_port) h.2 k.4
    ∙ build_conn-endpoints is_v6 c k
