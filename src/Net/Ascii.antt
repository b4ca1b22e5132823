-- ===== src/Net/Ascii.antt =====
-- The parser on lines of ASCII characters, such as the kernel writes.
use mathlib.Core.Path.{subst}
use owl_sentry.Base.{
  ℕ, ap, ◌*◌, zero, suc, ◌-◌, ◌<◌, ◌≤◌, ◌≡◌, refl, sym, ◌∙◌, inl, inr, Bool, true, false,
  Bool-cases, Option-cases, arith, leb, Option, none, some, List, [], ◌∷◌, All, length, ◌==◌,
  nat_eq, nat_beq_iff, list_eq, pair_eq,
}
use owl_sentry.Text.{
  Text, push_front, codes, ends_with, byte_len, split_once, split_on, split_whitespace, is_empty,
  is_whitespace, drop_empty, char_len,
}
use owl_sentry.Text.Numbers.{from_str_radix, parse_u64}
use owl_sentry.Net.Line.{
  parse_hex_port, split_bytes, slice, parse_words, parse_hex_addr, build_conn, parse_rest,
  parse_proc_net_line, next_field, u32_mod, ◌>>=◌, lift, Parsed, parsed, refused, panics,
}

abbrev pub IsAscii : Text → Type 0
IsAscii s = All (λ c. c < 128) s

pub one_byte : (c : ℕ) → c < 128 → char_len c ≡ 1
one_byte c h = ground arith

pub byte_len-IsAscii : (s : Text) → IsAscii s → byte_len s ≡ length s
unfolding byte_len
byte_len-IsAscii [] h = refl
byte_len-IsAscii (c ∷ s) h = omega (arith, one_byte c h.0, byte_len-IsAscii s h.1)

-- A text of ASCII characters can be split behind any of its bytes.
split_bytes-IsAscii :
    (n : ℕ) (s : Text)
    → IsAscii s
    → n ≤ length s
    → (a b : Text) × (split_bytes n s ≡ some (a, b)) × IsAscii b × (length b ≡ length s - n)
unfolding split_bytes
split_bytes-IsAscii zero [] h k = ([], [], refl, tt, refl)
split_bytes-IsAscii zero (c ∷ s) h k = ([], c ∷ s, refl, h, omega arith)
split_bytes-IsAscii (suc n) [] h k = absurd (omega arith)
split_bytes-IsAscii (suc n) (c ∷ s) h k =
    let (a, b, e, ascii, len) = split_bytes-IsAscii n s h.1 (omega arith) in
    let one = one_byte c h.0 in
    let z : (suc n == 0) ≡ false = ground arith in
    let fits : leb (char_len c) (suc n) ≡ true = ground arith in
    let left : suc n - char_len c ≡ n = omega arith in
    (c ∷ a, b, rw (z, fits, left, e) refl, ascii, omega arith)

-- No panic, and a predicate on what is returned
abbrev pub Returns : {A : Type 0} → (A → Type 0) → Parsed A → Type 0
Returns P (parsed a) = P a
Returns P refused = Unit
Returns P panics = ⊥

abbrev pub Anything : {A : Type 0} → A → Type 0
Anything a = Unit

bind-Returns :
    {A B : Type 0} {P : A → Type 0} (p : Parsed A) (f : A → Parsed B)
    → Returns P p
    → ((a : A) → P a → Returns Anything (f a))
    → Returns Anything (p >>= f)
bind-Returns (parsed a) f h k = k a h
bind-Returns refused f h k = tt
bind-Returns panics f h k = absurd h

lift-Returns : {A : Type 0} (o : Option A) → Returns Anything (lift o)
lift-Returns none = tt
lift-Returns (some a) = tt

slice-Returns :
    (n : ℕ) (s : Text)
    → IsAscii s
    → n ≤ length s
    → Returns (λ r. IsAscii r.1 × (length r.1 ≡ length s - n)) (slice n s)
slice-Returns n s h k =
    let (a, b, e, ascii, len) = split_bytes-IsAscii n s h k in
    let done : slice n s ≡ parsed (a, b) =
      ap (λ (o : Option (Text × Text)). elim o [ none ↦ panics | some r ↦ parsed r ]) e in
    subst (Returns (λ r. IsAscii r.1 × (length r.1 ≡ length s - n))) (sym done) (ascii, len)

parse_words-Returns :
    (n : ℕ) (s : Text) → IsAscii s → length s ≡ 8 * n → Returns Anything (parse_words n s)
unfolding parse_words
parse_words-Returns zero s h k = tt
parse_words-Returns (suc n) s h k =
    bind-Returns (slice 8 s) _ (slice-Returns 8 s h (omega arith)) (λ r ok.
      bind-Returns (lift (from_str_radix 16 u32_mod r.0)) _ (lift-Returns _) (λ value v.
        bind-Returns (parse_words n r.1) _ (parse_words-Returns n r.1 ok.0 (omega (arith, ok.1)))
          (λ bytes w. tt)))

parse_hex_addr-Returns :
    (s : Text) (is_v6 : Bool) → IsAscii s → Returns Anything (parse_hex_addr s is_v6)
unfolding parse_hex_addr
parse_hex_addr-Returns s true h = elim (Bool-cases (byte_len s == 32)) [
  | inl e ↦ rw e (
      bind-Returns (parse_words 4 s) _
        (parse_words-Returns 4 s h (sym (byte_len-IsAscii s h) ∙ (nat_beq_iff (byte_len s) 32).0 e))
        (λ bytes w. tt))
  | inr e ↦ rw e tt
]
parse_hex_addr-Returns s false h = elim (Bool-cases (byte_len s == 8)) [
  | inl e ↦ rw e (bind-Returns (lift (from_str_radix 16 u32_mod s)) _ (lift-Returns _) (λ v w. tt))
  | inr e ↦ rw e tt
]

-- The pieces of a text of ASCII characters consist of such.
split_once-IsAscii :
    (d : ℕ) (s : Text)
    → IsAscii s
    → Returns (λ r. IsAscii r.0 × IsAscii r.1) (lift (split_once d s))
unfolding split_once
split_once-IsAscii d [] h = tt
split_once-IsAscii d (c ∷ s) h = elim (Bool-cases (c == d)) [
  | inl e ↦ rw e (tt, h.1)
  | inr e ↦ elim (Option-cases (split_once d s)) [
    | inl f ↦ rw (e, f) tt
    | inr (r, f) ↦ rw (e, f) (let k = rw f at (split_once-IsAscii d s h.1) in ((h.0, k.0), k.1))
  ]
]

push_front-IsAscii :
    (c : ℕ) (ws : List Text) → c < 128 → All IsAscii ws → All IsAscii (push_front c ws)
unfolding push_front
push_front-IsAscii c [] h k = ((h, tt), tt)
push_front-IsAscii c (w ∷ ws) h k = ((h, k.0), k.1)

pub split_on-IsAscii : (p : ℕ → Bool) (s : Text) → IsAscii s → All IsAscii (split_on p s)
unfolding split_on
split_on-IsAscii p [] h = (tt, tt)
split_on-IsAscii p (c ∷ s) h = elim (Bool-cases (p c)) [
  | inl e ↦ rw e (tt, split_on-IsAscii p s h.1)
  | inr e ↦ rw e (push_front-IsAscii c (split_on p s) h.0 (split_on-IsAscii p s h.1))
]

drop_empty-IsAscii : (ws : List Text) → All IsAscii ws → All IsAscii (drop_empty ws)
unfolding drop_empty
drop_empty-IsAscii [] h = tt
drop_empty-IsAscii (w ∷ ws) h = elim (Bool-cases (is_empty w)) [
  | inl e ↦ rw e (drop_empty-IsAscii ws h.1)
  | inr e ↦ rw e (h.0, drop_empty-IsAscii ws h.1)
]

next_field-Returns :
    (ws : List Text) → All IsAscii ws → Returns (λ r. IsAscii r.0 × All IsAscii r.1) (next_field ws)
next_field-Returns [] h = tt
next_field-Returns (w ∷ ws) h = h

build_conn-Returns :
    (local remote : Text) (state inode : ℕ) (is_v6 : Bool)
    → IsAscii local
    → IsAscii remote
    → Returns Anything (build_conn local remote state inode is_v6)
unfolding build_conn
build_conn-Returns local remote state inode is_v6 h k =
    bind-Returns (lift (split_once b':' local)) _ (split_once-IsAscii b':' local h) (λ l l_ok.
      bind-Returns (lift (split_once b':' remote)) _ (split_once-IsAscii b':' remote k) (λ r r_ok.
        bind-Returns (parse_hex_addr l.0 is_v6) _ (parse_hex_addr-Returns l.0 is_v6 l_ok.0) (λ a x.
          bind-Returns (lift (parse_hex_port l.1)) _ (lift-Returns _) (λ p y.
            bind-Returns (parse_hex_addr r.0 is_v6) _ (parse_hex_addr-Returns r.0 is_v6 r_ok.0)
              (λ b z. bind-Returns (lift (parse_hex_port r.1)) _ (lift-Returns _) (λ q w. tt))))))

parse_rest-Returns :
    (fields : List Text) (is_v6 : Bool)
    → All IsAscii fields
    → Returns Anything (parse_rest fields is_v6)
unfolding parse_rest
parse_rest-Returns fields is_v6 h =
    bind-Returns (next_field fields) _ (next_field-Returns fields h) (λ local a.
      bind-Returns (next_field local.1) _ (next_field-Returns local.1 a.1) (λ remote b.
        bind-Returns (next_field remote.1) _ (next_field-Returns remote.1 b.1) (λ st c.
          bind-Returns (lift (from_str_radix 16 256 st.0)) _ (lift-Returns _) (λ state s.
            bind-Returns (next_field st.1) _ (next_field-Returns st.1 c.1) (λ txrx d.
              bind-Returns (next_field txrx.1) _ (next_field-Returns txrx.1 d.1) (λ tr e.
                bind-Returns (next_field tr.1) _ (next_field-Returns tr.1 e.1) (λ retr f.
                  bind-Returns (next_field retr.1) _ (next_field-Returns retr.1 f.1) (λ uid g.
                    bind-Returns (next_field uid.1) _ (next_field-Returns uid.1 g.1) (λ timeout i.
                      bind-Returns (next_field timeout.1) _ (next_field-Returns timeout.1 i.1)
                        (λ last j.
                          bind-Returns (lift (parse_u64 last.0)) _ (lift-Returns _) (λ inode k.
                            build_conn-Returns local.0 remote.0 state inode is_v6 a.0 b.0)))))))))))

-- A line of ASCII characters, whatever it holds, makes the parser return, either a connection or
-- nothing: it does not panic.
pub parse_proc_net_line-Returns :
    (line : Text) (is_v6 : Bool) → IsAscii line → Returns Anything (parse_proc_net_line line is_v6)
unfolding parse_proc_net_line split_whitespace
parse_proc_net_line-Returns line is_v6 h =
    let ws = split_whitespace line in
    let ok = drop_empty-IsAscii _ (split_on-IsAscii is_whitespace line h) in
    bind-Returns (next_field ws) _ (next_field-Returns ws ok) (λ first f.
      elim (Bool-cases (ends_with (codes ":") first.0)) [
        | inl e ↦ rw e (parse_rest-Returns first.1 is_v6 f.1)
        | inr e ↦ rw e tt
      ])
