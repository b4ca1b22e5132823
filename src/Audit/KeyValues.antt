-- ===== src/Audit/KeyValues.antt =====
-- crates/owlsentry-daemon/src/monitors/audit.rs: `parse_kv`. A slice that starts inside a character
-- panics, which is `none` of `parse_kv`. The loop runs on fuel.
use owl_sentry.Base.{
  ℕ, zero, suc, ◌≤◌, ◌<◌, ◌≡◌, refl, ap, inl, inr, Bool, Option, none, some, List, [], ◌∷◌, arith,
  if◌then◌else◌, Option-cases, Bool-cases, ◌≢◌, length, length-append, nat_eq, ◌==◌, list_eq,
  pair_eq, insert,
}
use owl_sentry.Text.{
  Text, codes, char_len, is_whitespace, strip_prefix, split_once, break_at, is_empty,
}
use owl_sentry.Text.Laws.{strip_prefix_sound, split_once_sound}

-- The last white space, with the text behind it
unfoldable pub last_space : Text → Option (ℕ × Text)
last_space [] = none
last_space (c ∷ cs) =
    let r = last_space cs in
    elim r [ some p ↦ some p | none ↦ if is_whitespace c then some (c, cs) else none ]

-- The key before an equals sign. The index behind the white space is that of its first byte and 1,
-- so a white space of several bytes makes the slice panic.
unfoldable pub key_before : Text → Option Text
unfolding last_space
key_before before = elim (last_space before) [
  | none ↦ some before
  | some (c, key) ↦ if char_len c == 1 then some key else none
]

-- The value behind an equals sign, with what is left
unfoldable pub value_of : Text → Text × Text
value_of after = elim (strip_prefix (codes "\"") after) [
  | some stripped ↦ elim (split_once 34 stripped) [
    | some (value, rest) ↦ (value, rest)
    | none ↦ (stripped, [])
  ]
  | none ↦ break_at is_whitespace after
]

abbrev pub add_pair : Text → Text → List (Text × Text) → List (Text × Text)
add_pair key value m = if is_empty key then m else insert key value m

-- How the loop ends: with the map, with a panic, or not with this much fuel.
pub data PairsEnd : Type 0 where
  pairs : List (Text × Text) → PairsEnd
  slice_panics : PairsEnd
  unfinished : PairsEnd

unfoldable pub parse_pairs : ℕ → Text → List (Text × Text) → PairsEnd
unfolding key_before value_of
parse_pairs zero rest m = unfinished
parse_pairs (suc fuel) rest m = elim (split_once 61 rest) [
  | none ↦ pairs m
  | some (before, after) ↦ elim (key_before before) [
    | none ↦ slice_panics
    | some key ↦
        let v = value_of after in
        let more = parse_pairs fuel v.1 (add_pair key v.0 m) in
        if is_empty v.1 then pairs (add_pair key v.0 m) else more
  ]
]

-- The fuel of `parse_kv` is enough, as `parse_pairs_ends` shows.
abbrev pub map_of : PairsEnd → Option (List (Text × Text))
map_of (pairs m) = some m
map_of slice_panics = none
map_of unfinished = none

unfoldable pub parse_kv : Text → Option (List (Text × Text))
unfolding parse_pairs
parse_kv line = map_of (parse_pairs (suc (length line)) line [])

break_at-length : (p : ℕ → Bool) (s : Text) → length (break_at p s).1 ≤ length s
unfolding break_at
break_at-length p [] = omega arith
break_at-length p (c ∷ s) = ground (arith, break_at-length p s)

value_of-length : (s : Text) → length (value_of s).1 ≤ length s
unfolding value_of strip_prefix
value_of-length s = elim (Option-cases (strip_prefix (codes "\"") s)) [
  | inl n ↦ rw n (break_at-length is_whitespace s)
  | inr (r, e) ↦
      let d = strip_prefix_sound (codes "\"") s r e in
      let l = ap length d in
      elim (Option-cases (split_once 34 r)) [
        | inl n ↦ rw (e, n) (omega arith)
        | inr ((v, q), f) ↦
            let k = ap length (split_once_sound 34 r v q f) in
            rw (e, f) (omega (arith, length-append v (34 ∷ q)))
      ]
]

pairs≢unfinished : (m : List (Text × Text)) → pairs m ≢ unfinished
pairs≢unfinished m e = cc

slice_panics≢unfinished : slice_panics ≢ unfinished
slice_panics≢unfinished e = cc

-- The loop ends: with more fuel than there are characters it is never unfinished, so it yields the
-- map or panics, and any other such fuel gives the same.
pub parse_pairs_ends :
    (n k : ℕ) (rest : Text) (m : List (Text × Text))
    → length rest < n
    → length rest < k
    → (parse_pairs n rest m ≢ unfinished) × (parse_pairs n rest m ≡ parse_pairs k rest m)
unfolding parse_pairs
parse_pairs_ends zero k rest m h j = absurd (ground arith)
parse_pairs_ends (suc n) zero rest m h j = absurd (ground arith)
parse_pairs_ends (suc n) (suc k) rest m h j = elim (Option-cases (split_once 61 rest)) [
  | inl e ↦ rw (parse_pairs, e) (pairs≢unfinished m, refl)
  | inr ((before, after), e) ↦ elim (Option-cases (key_before before)) [
    | inl f ↦ rw (parse_pairs, e, f) (slice_panics≢unfinished, refl)
    | inr (key, f) ↦
        let l = ap length (split_once_sound 61 rest before after e) in
        let v = value_of after in
        let (ends, same) =
          parse_pairs_ends n k v.1 (add_pair key v.0 m)
            (omega (arith, length-append before (61 ∷ after), value_of-length after))
            (omega (arith, length-append before (61 ∷ after), value_of-length after)) in
        elim (Bool-cases (is_empty v.1)) [
          | inl b ↦ rw (parse_pairs, e, f, b) (pairs≢unfinished _, refl)
          | inr b ↦ rw (parse_pairs, e, f, b) (ends, same)
        ]
  ]
]
