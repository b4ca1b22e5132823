-- ===== src/Text/Chunks.antt =====
-- The lines of a text with their ends: what `read_line` takes of it one after another
-- (crates/owlsentry-daemon/src/monitors/audit.rs, `run`).
use owl_sentry.Base.{
  ℕ, ◌+◌, ◌≡◌, refl, ap, ◌∙◌, inl, inr, Bool, true, List, [], ◌∷◌, ◌++◌, Bool-cases, if◌then◌else◌,
  nat_eq, ◌==◌, list_eq, pair_eq, length, drop, arith,
}

-- The chunk that is read next.
unfoldable pub first_line : List ℕ → List ℕ
first_line [] = []
first_line (c ∷ cs) = let rest = first_line cs in if c == 10 then c ∷ [] else c ∷ rest

-- A byte before the first line of some.
abbrev glue : ℕ → List (List ℕ) → List (List ℕ)
glue c [] = (c ∷ []) ∷ []
glue c (l ∷ ls) = (c ∷ l) ∷ ls

-- The lines of a text, each with its line feed. This is what the bytes mean, whoever reads them.
unfoldable pub split_inclusive : List ℕ → List (List ℕ)
split_inclusive [] = []
split_inclusive (c ∷ cs) =
    let rest = split_inclusive cs in if c == 10 then (c ∷ []) ∷ rest else glue c rest

-- Whether a text ends with a line feed; of the empty text, `before`.
unfoldable pub ends_line : (before : Bool) → List ℕ → Bool
ends_line before [] = before
ends_line before (c ∷ cs) = ends_line (c == 10) cs

pub first_line-drop : (xs : List ℕ) → first_line xs ++ drop (length (first_line xs)) xs ≡ xs
unfolding first_line
first_line-drop [] = refl
first_line-drop (c ∷ cs) = elim (Bool-cases (c == 10)) [
  | inl e ↦ rw e refl
  | inr e ↦ rw e (ap (◌∷◌ c) (first_line-drop cs))
]

pub length-first_line-le :
    (xs : List ℕ) → length (first_line xs) + length (drop (length (first_line xs)) xs) ≡ length xs
unfolding first_line
length-first_line-le [] = omega arith
length-first_line-le (c ∷ cs) = elim (Bool-cases (c == 10)) [
  | inl e ↦ rw e (omega arith)
  | inr e ↦ rw e (omega (arith, length-first_line-le cs))
]

glue-nonempty :
    (c : ℕ) (ls : List (List ℕ)) → (l : List ℕ) × (ms : List (List ℕ)) × (glue c ls ≡ l ∷ ms)
glue-nonempty c [] = (c ∷ [], [], refl)
glue-nonempty c (l ∷ ls) = (c ∷ l, ls, refl)

split_inclusive-nonempty :
    (c : ℕ) (cs : List ℕ)
    → (l : List ℕ) × (ls : List (List ℕ)) × (split_inclusive (c ∷ cs) ≡ l ∷ ls)
unfolding split_inclusive
split_inclusive-nonempty c cs = elim (Bool-cases (c == 10)) [
  | inl e ↦ rw e (c ∷ [], split_inclusive cs, refl)
  | inr e ↦ rw e (glue-nonempty c (split_inclusive cs))
]

pub split_inclusive-cons :
    (c : ℕ) (cs : List ℕ)
    → split_inclusive (c ∷ cs)
      ≡ first_line (c ∷ cs) ∷ split_inclusive (drop (length (first_line (c ∷ cs))) (c ∷ cs))
unfolding split_inclusive first_line
split_inclusive-cons c [] = elim (Bool-cases (c == 10)) [ inl e ↦ rw e refl | inr e ↦ rw e refl ]
split_inclusive-cons c (d ∷ ds) = elim (Bool-cases (c == 10)) [
  | inl e ↦ rw e refl
  | inr e ↦ rw e (ap (glue c) (split_inclusive-cons d ds))
]

glue-append :
    (c : ℕ) (xs ms : List (List ℕ)) (l : List ℕ) (ls : List (List ℕ))
    → xs ≡ l ∷ ls
    → glue c (xs ++ ms) ≡ glue c xs ++ ms
glue-append c xs ms l ls e = rw e refl

-- A text whose lines are all ended may be cut off before another.
pub split_inclusive-append :
    (xs ys : List ℕ)
    → ends_line true xs ≡ true
    → split_inclusive (xs ++ ys) ≡ split_inclusive xs ++ split_inclusive ys
unfolding split_inclusive ends_line
split_inclusive-append [] ys h = refl
split_inclusive-append (c ∷ []) ys h = rw h refl
split_inclusive-append (c ∷ d ∷ ds) ys h =
    let ih = split_inclusive-append (d ∷ ds) ys h in
    elim (Bool-cases (c == 10)) [
      | inl e ↦ rw e (ap (◌∷◌ (c ∷ [])) ih)
      | inr e ↦
          let (l, ls, starts) = split_inclusive-nonempty d ds in
          rw e (
            ap (glue c) ih
            ∙ glue-append c (split_inclusive (d ∷ ds)) (split_inclusive ys) l ls starts)
    ]

pub ends_line-append :
    (b : Bool) (xs ys : List ℕ) → ends_line b (xs ++ ys) ≡ ends_line (ends_line b xs) ys
unfolding ends_line
ends_line-append b [] ys = refl
ends_line-append b (c ∷ cs) ys = ends_line-append (c == 10) cs ys

-- The rest behind a chunk ends as the whole did.
pub ends_line-drop :
    (b : Bool) (xs : List ℕ)
    → ends_line b xs ≡ true
    → ends_line true (drop (length (first_line xs)) xs) ≡ true
unfolding ends_line first_line
ends_line-drop b [] h = refl
ends_line-drop b (c ∷ cs) h = elim (Bool-cases (c == 10)) [
  | inl e ↦ rw e (rw e at h)
  | inr e ↦ rw e (ends_line-drop (c == 10) cs h)
]
