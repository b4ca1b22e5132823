-- ===== src/Text/Numbers.antt =====
-- Numbers read from texts and written to them, as `from_str_radix`, `parse` and `to_string` do.
use owl_sentry.Base.{
  ℕ, zero, suc, ◌+◌, ◌-◌, ◌*◌, ◌/◌, ◌%◌, ◌≡◌, ◌↔◌, Bool, true, false, ◌&&◌, Option, none, some, [],
  ◌∷◌, arith, ltb, leb, if◌then◌else◌, u64_mod, ◌==◌, nat_eq, list_eq, pair_eq, Eq,
}
use owl_sentry.Text.{Text}

-- `char::to_digit`
unfoldable pub digit_value : ℕ → ℕ → Option ℕ
digit_value base c =
    let d =
      if leb b'0' c && leb c b'9'
      then c - b'0'
      else if leb b'a' c && leb c b'f'
      then c - b'a' + 10
      else if leb b'A' c && leb c b'F'
      then c - b'A' + 10
      else base in
    if ltb d base then some d else none

-- Digits read from the left into an integer below `bound`; overflow is an error.
unfoldable pub read_digits : ℕ → ℕ → ℕ → Text → Option ℕ
read_digits base bound acc [] = some acc
read_digits base bound acc (c ∷ cs) = elim (digit_value base c) [
  | none ↦ none
  | some d ↦ if ltb (acc * base + d) bound then read_digits base bound (acc * base + d) cs else none
]

unfoldable pub read_nonempty : ℕ → ℕ → Text → Option ℕ
unfolding read_digits digit_value
read_nonempty base bound [] = none
read_nonempty base bound (c ∷ cs) = read_digits base bound 0 (c ∷ cs)

-- `uN::from_str_radix`: a sign `+` may stand in front.
unfoldable pub from_str_radix : ℕ → ℕ → Text → Option ℕ
unfolding read_nonempty
from_str_radix base bound [] = none
from_str_radix base bound (c ∷ cs) =
    if c == b'+' then read_nonempty base bound cs else read_nonempty base bound (c ∷ cs)

unfoldable pub parse_u64 : Text → Option ℕ
unfolding from_str_radix
parse_u64 = from_str_radix 10 u64_mod

-- A signed integer; `negsuc n` is -(n + 1).
pub data ℤ : Type 0 where
  pos : ℕ → ℤ
  negsuc : ℕ → ℤ

abbrev pub int_beq : ℤ → ℤ → Bool
int_beq (pos a) (pos b) = a == b
int_beq (negsuc a) (negsuc b) = a == b
int_beq _ _ = false

pub int_beq_iff : (a b : ℤ) → (int_beq a b ≡ true) ↔ (a ≡ b)
int_beq_iff (pos a) (pos b) = ground arith
int_beq_iff (negsuc a) (negsuc b) = ground arith
int_beq_iff (pos a) (negsuc b) = ground arith
int_beq_iff (negsuc a) (pos b) = ground arith

instance abbrev pub int_eq : Eq ℤ
int_eq = record { beq = int_beq; beq_iff = int_beq_iff }

negate : ℕ → ℤ
negate zero = pos 0
negate (suc n) = negsuc n

abbrev i32_limit : ℕ
i32_limit = 2147483648

-- `str::parse::<i32>`
unfoldable pub parse_i32 : Text → Option ℤ
unfolding from_str_radix negate
parse_i32 [] = none
parse_i32 (c ∷ cs) =
    if c == b'-'
    then elim (read_nonempty 10 (i32_limit + 1) cs) [ none ↦ none | some n ↦ some (negate n) ]
    else elim (from_str_radix 10 i32_limit (c ∷ cs)) [ none ↦ none | some n ↦ some (pos n) ]

-- Decimal digits in front of `acc`; the fuel is a bound on their number.
show_digits : ℕ → ℕ → Text → Text
show_digits zero n acc = acc
show_digits (suc f) n acc =
    let rest = show_digits f (n / 10) ((b'0' + n % 10) ∷ acc) in
    if ltb n 10 then (b'0' + n) ∷ acc else rest

unfoldable pub show_nat : ℕ → Text
unfolding show_digits
show_nat n = show_digits (suc n) n []

unfoldable pub show_int : ℤ → Text
unfolding show_nat
show_int (pos n) = show_nat n
show_int (negsuc n) = b'-' ∷ show_nat (suc n)
