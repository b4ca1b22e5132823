-- ===== src/Net/HexAddr.antt =====
-- The addresses of the lines of /proc/net/tcp as the kernel writes them, and their reading.
use owl_sentry.Base.{
  ℕ, zero, suc, ◌-◌, ◌*◌, ◌/◌, ◌%◌, ◌<◌, ◌≡◌, refl, ap, ◌∙◌, arith, leb, Bool, true, false, ◌&&◌,
  ◌||◌, Option, none, some, List, [], ◌∷◌, ◌++◌, All, All-append, length, ◌==◌, nat_eq, list_eq,
  pair_eq,
}
use owl_sentry.Text.{Text, byte_len, char_len, is_whitespace}
use owl_sentry.Text.Laws.{Lacks}
use owl_sentry.Text.Numbers.{from_str_radix}
use owl_sentry.Net.Addr.{IpAddr, v4, v6}
use owl_sentry.Net.Line.{
  split_bytes, slice, parse_words, parse_hex_addr, to_le_bytes, u32_mod, parsed, panics,
}
use owl_sentry.Net.Ascii.{IsAscii, one_byte, byte_len-IsAscii}
use owl_sentry.Net.Hex.{
  hex_digit, hex2, word_text, port_text, word_value, from_word_text, to_le_bytes-word_value,
}

abbrev pub is_hex : ℕ → Bool
is_hex c = (leb 48 c && leb c 57) || (leb 65 c && leb c 70)

abbrev pub IsHex : Text → Type 0
IsHex t = All (λ c. is_hex c ≡ true) t

pub hex2-IsHex : (b : ℕ) → b < 256 → IsHex (hex2 b)
unfolding hex_digit
hex2-IsHex b h =
    (is_hex-hex_digit (b / 16) (omega arith), (is_hex-hex_digit (b % 16) (omega arith), tt))
  where
    is_hex-hex_digit : (d : ℕ) → d < 16 → is_hex (hex_digit d) ≡ true
    is_hex-hex_digit d h = ground arith

IsHex-IsAscii : (t : Text) → IsHex t → IsAscii t
IsHex-IsAscii [] h = tt
IsHex-IsAscii (c ∷ t) h = (below c h.0, IsHex-IsAscii t h.1)
  where
    below : (c : ℕ) → is_hex c ≡ true → c < 128
    below c h = ground arith

pub IsHex-Lacks_colon : (t : Text) → IsHex t → Lacks (λ c. c == b':') t
IsHex-Lacks_colon [] h = tt
IsHex-Lacks_colon (c ∷ t) h = (other c h.0, IsHex-Lacks_colon t h.1)
  where
    other : (c : ℕ) → is_hex c ≡ true → (c == b':') ≡ false
    other c h = ground arith

pub IsHex-Lacks_blank : (t : Text) → IsHex t → Lacks is_whitespace t
unfolding is_whitespace
IsHex-Lacks_blank [] h = tt
IsHex-Lacks_blank (c ∷ t) h = (other c h.0, IsHex-Lacks_blank t h.1)
  where
    other : (c : ℕ) → is_hex c ≡ true → is_whitespace c ≡ false
    other c h = ground arith

-- The bytes of a number of words
abbrev pub IsWords : ℕ → List ℕ → Type 0
IsWords zero [] = Unit
IsWords (suc n) (a ∷ b ∷ c ∷ d ∷ bytes) =
    (a < 256) × (b < 256) × (c < 256) × (d < 256) × IsWords n bytes
IsWords _ _ = ⊥

unfoldable pub words_text : ℕ → List ℕ → Text
words_text (suc n) (a ∷ b ∷ c ∷ d ∷ bytes) = word_text a b c d ++ words_text n bytes
words_text _ _ = []

IsHex-append : (s t : Text) → IsHex s → IsHex t → IsHex (s ++ t)
IsHex-append s t h k = All-append (λ c. is_hex c ≡ true) s t h k

word_text-IsHex : (a b c d : ℕ) → a < 256 → b < 256 → c < 256 → d < 256 → IsHex (word_text a b c d)
word_text-IsHex a b c d ha hb hc hd =
    IsHex-append (hex2 d) (hex2 c ++ (hex2 b ++ hex2 a)) (hex2-IsHex d hd) (
      IsHex-append (hex2 c) (hex2 b ++ hex2 a) (hex2-IsHex c hc)
        (IsHex-append (hex2 b) (hex2 a) (hex2-IsHex b hb) (hex2-IsHex a ha)))

split_bytes-append :
    (n : ℕ) (a b : Text) → IsAscii a → length a ≡ n → split_bytes n (a ++ b) ≡ some (a, b)
unfolding split_bytes
split_bytes-append zero [] [] h k = refl
split_bytes-append zero [] (c ∷ b) h k = refl
split_bytes-append (suc n) [] b h k = absurd (omega arith)
split_bytes-append zero (c ∷ a) b h k = absurd (omega arith)
split_bytes-append (suc n) (c ∷ a) b h k =
    let one = one_byte c h.0 in
    let z : (suc n == 0) ≡ false = ground arith in
    let fits : leb (char_len c) (suc n) ≡ true = ground arith in
    let left : suc n - char_len c ≡ n = omega arith in
    rw (split_bytes, z, fits, left, split_bytes-append n a b h.1 (omega arith)) refl

-- Induction over words
IsWords-elim :
    (P : ℕ → List ℕ → Type 0)
    → P zero []
    → ((n a b c d : ℕ) (bytes : List ℕ)
        → a < 256
        → b < 256
        → c < 256
        → d < 256
        → P n bytes
        → P (suc n) (a ∷ b ∷ c ∷ d ∷ bytes))
    → (n : ℕ) (bytes : List ℕ) → IsWords n bytes
    → P n bytes
IsWords-elim P z s zero [] h = z
IsWords-elim P z s (suc n) (a ∷ b ∷ c ∷ d ∷ bytes) (ha, hb, hc, hd, h) =
    s n a b c d bytes ha hb hc hd (IsWords-elim P z s n bytes h)
IsWords-elim P z s zero (a ∷ bytes) h = absurd h
IsWords-elim P z s (suc n) [] h = absurd h
IsWords-elim P z s (suc n) (a ∷ []) h = absurd h
IsWords-elim P z s (suc n) (a ∷ b ∷ []) h = absurd h
IsWords-elim P z s (suc n) (a ∷ b ∷ c ∷ []) h = absurd h

words_text-IsHex : (n : ℕ) (bytes : List ℕ) → IsWords n bytes → IsHex (words_text n bytes)
unfolding words_text
words_text-IsHex =
    IsWords-elim (λ n bytes. IsHex (words_text n bytes)) tt
      (λ n a b c d bytes ha hb hc hd k.
        IsHex-append (word_text a b c d) (words_text n bytes) (word_text-IsHex a b c d ha hb hc hd)
          k)

length-words_text : (n : ℕ) (bytes : List ℕ) → IsWords n bytes → length (words_text n bytes) ≡ 8 * n
unfolding words_text
length-words_text =
    IsWords-elim (λ n bytes. length (words_text n bytes) ≡ 8 * n) refl
      (λ n a b c d bytes ha hb hc hd k. omega arith)

slice-word_text :
    (a b c d : ℕ) (t : Text)
    → a < 256
    → b < 256
    → c < 256
    → d < 256
    → slice 8 (word_text a b c d ++ t) ≡ parsed (word_text a b c d, t)
slice-word_text a b c d t ha hb hc hd =
    ap (λ (o : Option (Text × Text)). elim o [ none ↦ panics | some r ↦ parsed r ])
      (split_bytes-append 8 (word_text a b c d) t
        (IsHex-IsAscii (word_text a b c d) (word_text-IsHex a b c d ha hb hc hd)) refl)

parse_words-step :
    (n value : ℕ) (s w t : Text) (bytes : List ℕ)
    → slice 8 s ≡ parsed (w, t)
    → from_str_radix 16 u32_mod w ≡ some value
    → parse_words n t ≡ parsed bytes
    → parse_words (suc n) s ≡ parsed (to_le_bytes value ++ bytes)
unfolding parse_words
parse_words-step n value s w t bytes e f g = rw (parse_words, e, f, g) refl

parse_words-words_text :
    (n : ℕ) (bytes : List ℕ) → IsWords n bytes → parse_words n (words_text n bytes) ≡ parsed bytes
unfolding parse_words words_text
parse_words-words_text =
    IsWords-elim (λ n bytes. parse_words n (words_text n bytes) ≡ parsed bytes) refl
      (λ n a b c d bytes ha hb hc hd k.
        parse_words-step n (word_value a b c d) (word_text a b c d ++ words_text n bytes)
          (word_text a b c d) (words_text n bytes) bytes
          (slice-word_text a b c d (words_text n bytes) ha hb hc hd)
          (from_word_text a b c d ha hb hc hd) k
        ∙ ap (λ front. parsed (front ++ bytes)) (to_le_bytes-word_value a b c d ha hb hc hd))

unfoldable pub addr_text : IpAddr → Text
unfolding words_text
addr_text (v4 bytes) = words_text 1 bytes
addr_text (v6 bytes) = words_text 4 bytes

-- An address of the file: of four bytes, or of sixteen in the one for IPv6
abbrev pub IsAddr : Bool → IpAddr → Type 0
IsAddr false (v4 bytes) = IsWords 1 bytes
IsAddr true (v6 bytes) = IsWords 4 bytes
IsAddr _ _ = ⊥

byte_len-words_text :
    (n : ℕ) (bytes : List ℕ) → IsWords n bytes → byte_len (words_text n bytes) ≡ 8 * n
byte_len-words_text n bytes h =
    byte_len-IsAscii _ (IsHex-IsAscii _ (words_text-IsHex n bytes h)) ∙ length-words_text n bytes h

v4_read :
    (bytes : List ℕ)
    → IsWords 1 bytes
    → (value : ℕ) × (from_str_radix 16 u32_mod (words_text 1 bytes) ≡ some value)
      × (to_le_bytes value ≡ bytes)
unfolding words_text
v4_read (a ∷ b ∷ c ∷ d ∷ []) (ha, hb, hc, hd, h) = (
  word_value a b c d,
  from_word_text a b c d ha hb hc hd,
  to_le_bytes-word_value a b c d ha hb hc hd,
)
v4_read (a ∷ b ∷ c ∷ d ∷ e ∷ bytes) (ha, hb, hc, hd, h) = absurd h
v4_read [] h = absurd h
v4_read (a ∷ []) h = absurd h
v4_read (a ∷ b ∷ []) h = absurd h
v4_read (a ∷ b ∷ c ∷ []) h = absurd h

pub parse_hex_addr-addr_text :
    (is_v6 : Bool) (a : IpAddr) → IsAddr is_v6 a → parse_hex_addr (addr_text a) is_v6 ≡ parsed a
unfolding parse_hex_addr addr_text
parse_hex_addr-addr_text true (v6 bytes) h =
    rw (byte_len-words_text 4 bytes h, parse_words-words_text 4 bytes h) refl
parse_hex_addr-addr_text false (v4 bytes) h =
    let (value, e, same) = v4_read bytes h in rw (byte_len-words_text 1 bytes h, e, same) refl
parse_hex_addr-addr_text true (v4 bytes) h = absurd h
parse_hex_addr-addr_text false (v6 bytes) h = absurd h

pub addr_text-IsHex : (is_v6 : Bool) (a : IpAddr) → IsAddr is_v6 a → IsHex (addr_text a)
unfolding addr_text
addr_text-IsHex true (v6 bytes) h = words_text-IsHex 4 bytes h
addr_text-IsHex false (v4 bytes) h = words_text-IsHex 1 bytes h
addr_text-IsHex true (v4 bytes) h = absurd h
addr_text-IsHex false (v6 bytes) h = absurd h

pub port_text-IsHex : (p : ℕ) → p < 65536 → IsHex (port_text p)
port_text-IsHex p h =
    IsHex-append (hex2 (p / 256)) (hex2 (p % 256)) (hex2-IsHex (p / 256) (omega arith))
      (hex2-IsHex (p % 256) (omega arith))
