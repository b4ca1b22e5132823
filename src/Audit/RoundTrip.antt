-- ===== src/Audit/RoundTrip.antt =====
-- What `parse_kv` reads of a line that was written field by field.
use owl_sentry.Base.{
  ℕ, zero, suc, ◌<◌, ◌≡◌, refl, ap, inl, inr, Bool, true, false, none, some, List, [], ◌∷◌, ◌++◌,
  arith, if◌then◌else◌, Bool-cases, length, length-append, All, nat_eq, ◌==◌, list_eq, pair_eq,
}
use owl_sentry.Text.Laws.{Lacks, split_once-append}
use owl_sentry.Text.{Text, codes, char_len, is_whitespace, strip_prefix, split_once, break_at}
use owl_sentry.Audit.KeyValues.{
  last_space, key_before, value_of, add_pair, parse_pairs, parse_kv, pairs, map_of,
}

-- A field of a line: a key, and a value that stands in quotes or not.
pub record Field : Type 0 where
  pub key : Text
  pub value : Text
  pub is_quoted : Bool

abbrev pub write_value : Field → Text
write_value f = if f.is_quoted then codes "\"" ++ (f.value ++ codes "\"") else f.value

abbrev pub render : List Field → Text
render [] = []
render (f ∷ fs) = 32 ∷ (f.key ++ (61 ∷ (write_value f ++ render fs)))

-- The key holds neither white space nor an equals sign; a quoted value holds no quote, and another
-- holds no white space and does not begin with a quote.
abbrev pub IsWritable : Field → Type 0
IsWritable f =
    Lacks is_whitespace f.key
    × Lacks (λ c. c == 61) f.key
    × (if f.is_quoted
        then Lacks (λ c. c == 34) f.value
        else (Lacks is_whitespace f.value × (strip_prefix (codes "\"") f.value ≡ none)))

-- The map of the fields: a later field replaces an earlier one of the same key, and a field without
-- a key is left out.
abbrev pub pairs_of : List Field → List (Text × Text) → List (Text × Text)
pairs_of [] m = m
pairs_of (f ∷ fs) m = pairs_of fs (add_pair f.key f.value m)

pub last_space-none : (s : Text) → Lacks is_whitespace s → last_space s ≡ none
unfolding last_space
last_space-none [] h = refl
last_space-none (c ∷ s) h = rw (last_space, last_space-none s h.1, h.0) refl

last_space-append :
    (a k : Text) (c : ℕ)
    → is_whitespace c ≡ true
    → Lacks is_whitespace k
    → last_space (a ++ (c ∷ k)) ≡ some (c, k)
unfolding last_space
last_space-append [] k c w h = rw (last_space, last_space-none k h, w) refl
last_space-append (b ∷ a) k c w h = rw (last_space, last_space-append a k c w h) refl

pub break_at-fields :
    (s : Text) (fs : List Field)
    → Lacks is_whitespace s
    → break_at is_whitespace (s ++ render fs) ≡ (s, render fs)
unfolding break_at is_whitespace
break_at-fields [] [] h = refl
break_at-fields [] (f ∷ fs) h = refl
break_at-fields (c ∷ s) fs h = rw (break_at, h.0, break_at-fields s fs h.1) refl

no_quote :
    (v : Text) (fs : List Field)
    → strip_prefix (codes "\"") v ≡ none
    → strip_prefix (codes "\"") (v ++ render fs) ≡ none
unfolding strip_prefix
no_quote [] [] h = refl
no_quote [] (f ∷ fs) h = refl
no_quote (c ∷ v) fs h = elim (Bool-cases (34 == c)) [
  | inl e ↦ absurd (ground arith)
  | inr e ↦ rw e refl
]

append-quote : (v r : Text) → (v ++ (34 ∷ [])) ++ r ≡ v ++ (34 ∷ r)
append-quote [] r = refl
append-quote (c ∷ v) r = ap (λ s. c ∷ s) (append-quote v r)

value_of-quoted :
    (v r : Text) → Lacks (λ c. c == 34) v → value_of (34 ∷ ((v ++ (34 ∷ [])) ++ r)) ≡ (v, r)
unfolding value_of strip_prefix
value_of-quoted v r h = rw (append-quote v r, value_of, split_once-append 34 v r h) refl

pub value_of-write_value :
    (f : Field) (fs : List Field)
    → IsWritable f
    → value_of (write_value f ++ render fs) ≡ (f.value, render fs)
unfolding value_of strip_prefix
value_of-write_value f fs h = elim (Bool-cases f.is_quoted) [
  | inl q ↦
      let k : Lacks (λ c. c == 34) f.value = rw q at h.2 in
      rw q (value_of-quoted f.value (render fs) k)
  | inr q ↦
      let k : Lacks is_whitespace f.value × (strip_prefix (codes "\"") f.value ≡ none) =
        rw q at h.2 in
      rw q
        (let e = no_quote f.value fs k.1 in rw (value_of, e, break_at-fields f.value fs k.0) refl)
]

key_before-space : (k : Text) → Lacks is_whitespace k → key_before (32 ∷ k) ≡ some k
unfolding key_before is_whitespace
key_before-space k h = rw (key_before, last_space-append [] k 32 refl h) refl

pub parse_pairs-render :
    (n : ℕ) (fs : List Field) (m : List (Text × Text))
    → All IsWritable fs
    → length (render fs) < n
    → parse_pairs n (render fs) m ≡ pairs (pairs_of fs m)
unfolding parse_pairs split_once
parse_pairs-render zero fs m h l = absurd (ground arith)
parse_pairs-render (suc n) [] m h l = refl
parse_pairs-render (suc n) (f ∷ []) m h l =
    let e = split_once-append 61 (32 ∷ f.key) (write_value f ++ []) (refl, h.0.1) in
    rw (parse_pairs, e, key_before-space f.key h.0.0, value_of-write_value f [] h.0) refl
parse_pairs-render (suc n) (f ∷ g ∷ fs) m h l =
    let rest = write_value f ++ render (g ∷ fs) in
    let e = split_once-append 61 (32 ∷ f.key) rest (refl, h.0.1) in
    let k : length (render (g ∷ fs)) < n =
      omega
        (arith, length-append f.key (61 ∷ rest), length-append (write_value f) (render (g ∷ fs))) in
    rw (parse_pairs, e, key_before-space f.key h.0.0, value_of-write_value f (g ∷ fs) h.0)
      (parse_pairs-render n (g ∷ fs) (add_pair f.key f.value m) h.1 k)

-- A line written field by field, in quotes or not, is read back: the parser yields the map of its
-- fields, for any keys without white space and equals signs, and any values that their way of
-- writing allows.
pub parse_kv-render :
    (fs : List Field) → All IsWritable fs → parse_kv (render fs) ≡ some (pairs_of fs [])
unfolding parse_kv
parse_kv-render fs h =
    ap map_of (parse_pairs-render (suc (length (render fs))) fs [] h (omega arith))

-- A key behind a white space that takes several bytes makes the parser panic.
pub parse_kv-panics :
    (a k rest : Text) (c : ℕ)
    → is_whitespace c ≡ true
    → 1 < char_len c
    → Lacks is_whitespace k
    → Lacks (λ d. d == 61) (a ++ (c ∷ k))
    → parse_kv ((a ++ (c ∷ k)) ++ (61 ∷ rest)) ≡ none
unfolding parse_kv parse_pairs key_before
parse_kv-panics a k rest c w long h l =
    let e = split_once-append 61 (a ++ (c ∷ k)) rest l in
    let ne : (char_len c == 1) ≡ false = ground arith in
    rw (parse_pairs, e, last_space-append a k c w h, ne) refl
