-- ===== src/Net/Files.antt =====
-- The reading of the two files of /proc that hold ASCII characters only.
use owl_sentry.Base.{
  inl, inr, Bool, true, false, Bool-cases, arith, Option, none, some, List, [], ◌∷◌, All, ◌==◌,
  nat_eq, list_eq, pair_eq,
}
use owl_sentry.Text.{Text, is_empty}
use owl_sentry.Text.Lines.{lines, ended_lines, drop_cr}
use owl_sentry.Net.Reading.{read_proc_net, read_file, conns_of, keep, join}
use owl_sentry.Net.Line.{parse_proc_net_line, Parsed, parsed, refused, panics, TcpConn}
use owl_sentry.Net.Ascii.{IsAscii, Returns, Anything, parse_proc_net_line-Returns, split_on-IsAscii}

conns_of-Returns :
    (is_v6 : Bool) (ls : List Text) → All IsAscii ls → Returns Anything (conns_of is_v6 ls)
unfolding conns_of
conns_of-Returns is_v6 [] h = tt
conns_of-Returns is_v6 (l ∷ ls) h =
    keep-Returns (parse_proc_net_line l is_v6) (conns_of is_v6 ls)
      (parse_proc_net_line-Returns l is_v6 h.0) (conns_of-Returns is_v6 ls h.1)
  where
    keep-Returns :
        (p : Parsed TcpConn) (rest : Parsed (List TcpConn))
        → Returns Anything p
        → Returns Anything rest
        → Returns Anything (keep p rest)
    keep-Returns (parsed c) (parsed cs) h k = tt
    keep-Returns (parsed c) refused h k = tt
    keep-Returns (parsed c) panics h k = k
    keep-Returns refused rest h k = k
    keep-Returns panics rest h k = h

drop_cr-IsAscii : (s : Text) → IsAscii s → IsAscii (drop_cr s)
unfolding drop_cr
drop_cr-IsAscii [] h = tt
drop_cr-IsAscii (c ∷ []) h = ground arith
drop_cr-IsAscii (c ∷ d ∷ s) h = (h.0, drop_cr-IsAscii (d ∷ s) h.1)

ended_lines-IsAscii : (ls : List Text) → All IsAscii ls → All IsAscii (ended_lines ls)
unfolding ended_lines
ended_lines-IsAscii [] h = tt
ended_lines-IsAscii (l ∷ []) h = elim (Bool-cases (is_empty l)) [ inl e ↦ rw e tt | inr e ↦ rw e h ]
ended_lines-IsAscii (l ∷ k ∷ ls) h = (drop_cr-IsAscii l h.0, ended_lines-IsAscii (k ∷ ls) h.1)

abbrev pub IsAsciiFile : Option Text → Type 0
IsAsciiFile none = Unit
IsAsciiFile (some content) = IsAscii content

read_file-Returns :
    (is_v6 : Bool) (file : Option Text) → IsAsciiFile file → Returns Anything (read_file is_v6 file)
unfolding read_file lines
read_file-Returns is_v6 none h = tt
read_file-Returns is_v6 (some content) h =
    conns_of-Returns is_v6 (lines content)
      (ended_lines-IsAscii _ (split_on-IsAscii (λ c. c == 10) content h))

-- Reading the two files does not panic, if what they hold is ASCII, as the
-- kernel writes it; a file that cannot be read is no obstacle.
pub read_proc_net-Returns :
    (tcp tcp6 : Option Text)
    → IsAsciiFile tcp
    → IsAsciiFile tcp6
    → Returns Anything (read_proc_net tcp tcp6)
unfolding read_proc_net
read_proc_net-Returns tcp tcp6 h k =
    join-Returns (read_file false tcp) (read_file true tcp6) (read_file-Returns false tcp h)
      (read_file-Returns true tcp6 k)
  where
    join-Returns :
        (p q : Parsed (List TcpConn))
        → Returns Anything p
        → Returns Anything q
        → Returns Anything (join p q)
    join-Returns (parsed c) (parsed cs) h k = tt
    join-Returns (parsed c) refused h k = tt
    join-Returns (parsed c) panics h k = k
    join-Returns refused q h k = k
    join-Returns panics q h k = h
