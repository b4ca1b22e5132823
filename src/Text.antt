-- ===== src/Text.antt =====
-- Texts, and what the sources use of `str`. A text is the list of its characters (code points);
-- a length in bytes counts the UTF-8 encoding.
pub mod Numbers
pub mod Laws
pub mod Chunks
pub mod Lines
use Prim.Native.Char.{code}
use Prim.Native.String.{String}
use owl_sentry.Base.{
  ℕ, ◌+◌, ◌≡◌, Bool, true, false, ◌&&◌, ◌||◌, Option, none, some, List, [], ◌∷◌, ◌++◌, ltb, leb,
  if◌then◌else◌, length, ◌==◌, nat_eq, list_beq, list_eq, pair_eq,
}

abbrev pub Text : Type 0
Text = List ℕ

-- `==` on texts
abbrev pub text_beq : Text → Text → Bool
text_beq = list_beq

-- A literal.
abbrev pub codes : String → Text
codes String.[] = []
codes (String.◌∷◌ c s) = code c ∷ codes s

-- `format!`, and `concat`: the pieces one after another.
unfoldable pub format : List Text → Text
format [] = []
format (p ∷ ps) = p ++ format ps

-- `char::len_utf8`
abbrev pub char_len : ℕ → ℕ
char_len c = if ltb c 0x80 then 1 else if ltb c 0x800 then 2 else if ltb c 0x10000 then 3 else 4

-- `str::len`, in bytes
unfoldable pub byte_len : Text → ℕ
byte_len [] = 0
byte_len (c ∷ cs) = char_len c + byte_len cs

-- `char::is_whitespace`: the property White_Space
unfoldable pub is_whitespace : ℕ → Bool
is_whitespace c =
    (leb 9 c && leb c 13)
    || (c == 0x20)
    || (c == 0x85)
    || (c == 0xa0)
    || (c == 0x1680)
    || (leb 0x2000 c && leb c 0x200a)
    || (c == 0x2028)
    || (c == 0x2029)
    || (c == 0x202f)
    || (c == 0x205f)
    || (c == 0x3000)

unfoldable pub is_ascii_digit : ℕ → Bool
is_ascii_digit c = leb b'0' c && leb c b'9'

-- `char::to_ascii_lowercase`
abbrev pub lower_char : ℕ → ℕ
lower_char c = if leb b'A' c && leb c b'Z' then c + 32 else c

unfoldable pub to_ascii_lowercase : Text → Text
to_ascii_lowercase [] = []
to_ascii_lowercase (c ∷ cs) = lower_char c ∷ to_ascii_lowercase cs

-- `strip_prefix`: what follows the prefix, if it is one.
unfoldable pub strip_prefix : Text → Text → Option Text
strip_prefix [] s = some s
strip_prefix (p ∷ ps) [] = none
strip_prefix (p ∷ ps) (c ∷ cs) = if p == c then strip_prefix ps cs else none

unfoldable pub starts_with : Text → Text → Bool
starts_with [] s = true
starts_with (p ∷ ps) [] = false
starts_with (p ∷ ps) (c ∷ cs) = p == c && starts_with ps cs

unfoldable pub ends_with : Text → Text → Bool
ends_with p [] = p == []
ends_with p (c ∷ cs) = p == (c ∷ cs) || ends_with p cs

-- `str::contains` of a text.
unfoldable pub contains_text : Text → Text → Bool
unfolding starts_with
contains_text p [] = starts_with p []
contains_text p (c ∷ cs) = starts_with p (c ∷ cs) || contains_text p cs

-- `split_once` at a character: what stands before its first place, and behind it.
unfoldable pub split_once : ℕ → Text → Option (Text × Text)
split_once d [] = none
split_once d (c ∷ cs) =
    if c == d
    then some ([], cs)
    else elim (split_once d cs) [ none ↦ none | some (a, b) ↦ some (c ∷ a, b) ]

-- `find` of a character by a test: the text before the first such place, and the text from there.
-- Without such a place the whole text stands before the end.
unfoldable pub break_at : (ℕ → Bool) → Text → Text × Text
break_at p [] = ([], [])
break_at p (c ∷ cs) = let r = break_at p cs in if p c then ([], c ∷ cs) else (c ∷ r.0, r.1)

unfoldable pub push_front : ℕ → List Text → List Text
push_front c [] = (c ∷ []) ∷ []
push_front c (w ∷ ws) = (c ∷ w) ∷ ws

-- `split` at every character that passes a test: always at least one piece.
unfoldable pub split_on : (ℕ → Bool) → Text → List Text
unfolding push_front
split_on p [] = [] ∷ []
split_on p (c ∷ cs) = let r = split_on p cs in if p c then [] ∷ r else push_front c r

abbrev pub is_empty : Text → Bool
is_empty [] = true
is_empty (c ∷ cs) = false

unfoldable pub drop_empty : List Text → List Text
drop_empty [] = []
drop_empty (w ∷ ws) = if is_empty w then drop_empty ws else w ∷ drop_empty ws

-- `split_whitespace`
unfoldable pub split_whitespace : Text → List Text
unfolding split_on drop_empty
split_whitespace s = drop_empty (split_on is_whitespace s)

unfoldable pub trim_start : Text → Text
trim_start [] = []
trim_start (c ∷ cs) = if is_whitespace c then trim_start cs else c ∷ cs

unfoldable pub trim_end : Text → Text
trim_end [] = []
trim_end (c ∷ cs) = let r = trim_end cs in if is_empty r && is_whitespace c then [] else c ∷ r

unfoldable pub trim : Text → Text
unfolding trim_start trim_end
trim s = trim_end (trim_start s)

-- The last piece of `rsplit`, which is the first that it yields.
unfoldable pub last_piece : List Text → Text
last_piece [] = []
last_piece (w ∷ []) = w
last_piece (w ∷ v ∷ ws) = last_piece (v ∷ ws)

-- `rsplit(d).next()`: the text behind the last `d`, or the whole text.
unfoldable pub after_last : ℕ → Text → Text
unfolding split_on last_piece
after_last d s = last_piece (split_on (λ c. c == d) s)

-- `text` occurs in `whole`.
abbrev pub Mentions : Text → Text → Type 0
Mentions text whole = (pre : Text) × (post : Text) × (whole ≡ pre ++ (text ++ post))
