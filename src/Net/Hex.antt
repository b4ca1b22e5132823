-- ===== src/Net/Hex.antt =====
-- The numbers of the lines of /proc/net/tcp as the kernel writes them, and their reading.
use owl_sentry.Base.{
  ℕ, ◌+◌, ◌*◌, ◌/◌, ◌%◌, ◌<◌, ◌≡◌, refl, ap, ◌∙◌, arith, ltb, true, false, some, [], ◌∷◌, ◌++◌,
  if◌then◌else◌, ◌==◌, nat_eq, list_eq, pair_eq,
}
use owl_sentry.Text.{Text}
use owl_sentry.Text.Numbers.{digit_value, read_digits, read_nonempty, from_str_radix}
use owl_sentry.Net.Line.{to_le_bytes, u32_mod, parse_hex_port}

unfoldable pub hex_digit : ℕ → ℕ
hex_digit d = if ltb d 10 then 48 + d else 55 + d

-- Two digits for a byte
abbrev pub hex2 : ℕ → Text
hex2 b = hex_digit (b / 16) ∷ hex_digit (b % 16) ∷ []

-- The bytes of a word, the last first
abbrev pub word_text : ℕ → ℕ → ℕ → ℕ → Text
word_text a b c d = hex2 d ++ (hex2 c ++ (hex2 b ++ hex2 a))

abbrev pub port_text : ℕ → Text
port_text p = hex2 (p / 256) ++ hex2 (p % 256)

digit_value-hex_digit : (d : ℕ) → d < 16 → digit_value 16 (hex_digit d) ≡ some d
unfolding digit_value hex_digit
digit_value-hex_digit d h = ground arith

read_digits-step :
    (bound acc c d : ℕ) (rest : Text)
    → digit_value 16 c ≡ some d
    → acc * 16 + d < bound
    → read_digits 16 bound acc (c ∷ rest) ≡ read_digits 16 bound (acc * 16 + d) rest
unfolding read_digits
read_digits-step bound acc c d rest e h =
    let fits : ltb (acc * 16 + d) bound ≡ true = ground arith in rw (read_digits, e, fits) refl

pub read_digits-hex2 :
    (bound acc b : ℕ) (rest : Text)
    → b < 256
    → acc * 256 + b < bound
    → read_digits 16 bound acc (hex2 b ++ rest) ≡ read_digits 16 bound (acc * 256 + b) rest
read_digits-hex2 bound acc b rest h k =
    let high = digit_value-hex_digit (b / 16) (omega arith) in
    let low = digit_value-hex_digit (b % 16) (omega arith) in
    let all : (acc * 16 + b / 16) * 16 + b % 16 ≡ acc * 256 + b = omega arith in
    read_digits-step bound acc _ (b / 16) _ high (omega arith)
    ∙ read_digits-step bound (acc * 16 + b / 16) _ (b % 16) rest low (omega arith)
    ∙ ap (λ n. read_digits 16 bound n rest) all

hex_digit-no_sign : (d : ℕ) → (hex_digit d == 43) ≡ false
unfolding hex_digit
hex_digit-no_sign d = ground arith

pub from_hex2 :
    (bound b : ℕ) (rest : Text)
    → b < 256
    → b < bound
    → from_str_radix 16 bound (hex2 b ++ rest) ≡ read_digits 16 bound b rest
unfolding from_str_radix read_nonempty
from_hex2 bound b rest h k = rw (hex_digit-no_sign (b / 16)) (
    read_digits-hex2 bound 0 b rest h (omega arith)
    ∙ ap (λ n. read_digits 16 bound n rest) (omega arith))

pub parse_hex_port-port_text : (p : ℕ) → p < 65536 → parse_hex_port (port_text p) ≡ some p
unfolding parse_hex_port read_digits
parse_hex_port-port_text p h =
    from_hex2 65536 (p / 256) (hex2 (p % 256)) (omega arith) (omega arith)
    ∙ read_digits-hex2 65536 (p / 256) (p % 256) [] (omega arith) (omega arith)
    ∙ ap some (omega arith)

abbrev pub word_value : ℕ → ℕ → ℕ → ℕ → ℕ
word_value a b c d = ((d * 256 + c) * 256 + b) * 256 + a

pub from_word_text :
    (a b c d : ℕ)
    → a < 256
    → b < 256
    → c < 256
    → d < 256
    → from_str_radix 16 u32_mod (word_text a b c d) ≡ some (word_value a b c d)
unfolding read_digits
from_word_text a b c d ha hb hc hd =
    from_hex2 u32_mod d (hex2 c ++ (hex2 b ++ hex2 a)) hd (omega arith)
    ∙ read_digits-hex2 u32_mod d c (hex2 b ++ hex2 a) hc (omega arith)
    ∙ read_digits-hex2 u32_mod (d * 256 + c) b (hex2 a) hb (omega arith)
    ∙ read_digits-hex2 u32_mod ((d * 256 + c) * 256 + b) a [] ha (omega arith)

pub to_le_bytes-word_value :
    (a b c d : ℕ)
    → a < 256
    → b < 256
    → c < 256
    → d < 256
    → to_le_bytes (word_value a b c d) ≡ a ∷ b ∷ c ∷ d ∷ []
to_le_bytes-word_value a b c d ha hb hc hd =
    let v = word_value a b c d in
    let e0 : v % 256 ≡ a = omega arith in
    let e1 : v / 256 % 256 ≡ b = omega arith in
    let e2 : v / 65536 % 256 ≡ c = omega arith in
    let e3 : v / 16777216 % 256 ≡ d = omega arith in rw (e0, e1, e2, e3) refl
