-- ===== src/Text/Laws.antt =====
-- Laws of texts: a formatted text mentions each of its pieces, and splitting loses nothing.
use owl_sentry.Base.{
  zero, suc, ℕ, ◌≡◌, refl, sym, ap, ◌∙◌, inl, inr, Bool, true, false, All, append-nil, ◌==◌, some,
  List, [], ◌∷◌, ◌++◌, append_assoc, arith, Option-cases, In, nat_eq, list_eq, pair_eq, eq_refl,
}
use owl_sentry.Text.{
  Text, format, Mentions, strip_prefix, starts_with, split_once, break_at, split_on, push_front,
  split_whitespace, drop_empty, is_empty, is_whitespace,
}

Mentions-append_right : (t u v : Text) → Mentions t v → Mentions t (u ++ v)
Mentions-append_right t u v (pre, post, e) =
    (u ++ pre, post, ap (◌++◌ u) e ∙ sym (append_assoc u pre (t ++ post)))

-- `format!` puts each argument into the text whole.
pub Mentions-format : (t : Text) (ps : List Text) → In t ps → Mentions t (format ps)
unfolding format
Mentions-format t [] m = absurd m
Mentions-format t (p ∷ ps) (inl e) = ([], format ps, ap (λ x. x ++ format ps) (sym e))
Mentions-format t (p ∷ ps) (inr m) = Mentions-append_right t p (format ps) (Mentions-format t ps m)

-- `strip_prefix` succeeds exactly on a text that begins with the prefix.
pub strip_prefix_sound : (p s r : Text) → strip_prefix p s ≡ some r → s ≡ p ++ r
unfolding strip_prefix
strip_prefix_sound [] s r h = ground arith
strip_prefix_sound (x ∷ p) [] r h = cc
strip_prefix_sound (x ∷ p) (c ∷ s) r h = ground (arith, strip_prefix_sound p s r)

pub strip_prefix-append : (p r : Text) → strip_prefix p (p ++ r) ≡ some r
unfolding strip_prefix
strip_prefix-append [] r = refl
strip_prefix-append (x ∷ p) r = rw (eq_refl x, strip_prefix-append p r)

pub starts_with-append : (p r : Text) → starts_with p (p ++ r) ≡ true
unfolding starts_with
starts_with-append [] r = refl
starts_with-append (x ∷ p) r = rw (eq_refl x, starts_with-append p r)

-- `split_once` takes one separator out.
pub split_once_sound : (d : ℕ) (s a b : Text) → split_once d s ≡ some (a, b) → s ≡ a ++ (d ∷ b)
unfolding split_once
split_once_sound d [] a b h = cc
split_once_sound d (c ∷ s) a b h = elim (Option-cases (split_once d s)) [
  | inl e ↦ ground arith
  | inr (r, e) ↦ ground (arith, split_once_sound d s r.0 r.1)
]

pub break_at-append : (p : ℕ → Bool) (s : Text) → (break_at p s).0 ++ (break_at p s).1 ≡ s
unfolding break_at
break_at-append p [] = refl
break_at-append p (c ∷ s) = ground (arith, break_at-append p s)

abbrev pub Lacks : (ℕ → Bool) → Text → Type 0
Lacks p = All (λ c. p c ≡ false)

pub split_once-append :
    (d : ℕ) (a b : Text) → Lacks (λ c. c == d) a → split_once d (a ++ (d ∷ b)) ≡ some (a, b)
unfolding split_once
split_once-append d [] b h = rw (eq_refl d) refl
split_once-append d (c ∷ a) b h = rw (split_once, h.0, split_once-append d a b h.1) refl

-- A word before a separator is a piece.
pub split_on-append :
    (p : ℕ → Bool) (w : Text) (d : ℕ) (r : Text)
    → Lacks p w
    → p d ≡ true
    → split_on p (w ++ (d ∷ r)) ≡ w ∷ split_on p r
unfolding split_on push_front
split_on-append p [] d r h k = rw k refl
split_on-append p (c ∷ w) d r h k = rw (split_on, h.0, split_on-append p w d r h.1 k) refl

pub split_on-word : (p : ℕ → Bool) (w : Text) → Lacks p w → split_on p w ≡ w ∷ []
unfolding split_on push_front
split_on-word p [] h = refl
split_on-word p (c ∷ w) h = rw (split_on, h.0, split_on-word p w h.1) refl

unfoldable pub blanks : ℕ → Text
blanks zero = []
blanks (suc n) = 32 ∷ blanks n

-- Words with blanks before each, one at least and as many more as a list says, and blanks at the end
unfoldable pub spread : ℕ → List ℕ → List Text → Text
unfolding blanks
spread trail gaps [] = blanks trail
spread trail [] (w ∷ ws) = 32 ∷ (w ++ spread trail [] ws)
spread trail (g ∷ gaps) (w ∷ ws) = 32 ∷ (blanks g ++ (w ++ spread trail gaps ws))

abbrev pub IsWord : Text → Type 0
IsWord w = (is_empty w ≡ false) × Lacks is_whitespace w

pub split_whitespace-blanks :
    (n : ℕ) (s : Text) → split_whitespace (blanks n ++ s) ≡ split_whitespace s
unfolding split_whitespace split_on drop_empty blanks is_whitespace
split_whitespace-blanks zero s = refl
split_whitespace-blanks (suc n) s = split_whitespace-blanks n s

split_whitespace-word :
    (w s : Text) → IsWord w → split_whitespace (w ++ (32 ∷ s)) ≡ w ∷ split_whitespace s
unfolding split_whitespace drop_empty is_whitespace
split_whitespace-word w s h =
    rw (split_on-append is_whitespace w 32 s h.1 refl) (rw (drop_empty, h.0) refl)

split_whitespace-last : (n : ℕ) (w : Text) → IsWord w → split_whitespace (w ++ blanks n) ≡ w ∷ []
unfolding split_whitespace drop_empty blanks
split_whitespace-last zero w h =
    rw (append-nil w, split_on-word is_whitespace w h.1) (rw (drop_empty, h.0) refl)
split_whitespace-last (suc n) w h =
    split_whitespace-word w (blanks n) h
    ∙ ap (λ ws. w ∷ ws)
        (ap split_whitespace (sym (append-nil (blanks n))) ∙ split_whitespace-blanks n [])

-- `split_whitespace` yields the words, however many blanks stand between them and at the end.
pub split_whitespace-spread :
    (trail : ℕ) (gaps : List ℕ) (w : Text) (ws : List Text)
    → IsWord w
    → All IsWord ws
    → split_whitespace (w ++ spread trail gaps ws) ≡ w ∷ ws
unfolding spread
split_whitespace-spread trail gaps w [] h k = split_whitespace-last trail w h
split_whitespace-spread trail [] w (v ∷ vs) h k =
    split_whitespace-word w (v ++ spread trail [] vs) h
    ∙ ap (λ r. w ∷ r) (split_whitespace-spread trail [] v vs k.0 k.1)
split_whitespace-spread trail (g ∷ gaps) w (v ∷ vs) h k =
    split_whitespace-word w (blanks g ++ (v ++ spread trail gaps vs)) h
    ∙ ap (λ r. w ∷ r)
        (split_whitespace-blanks g (v ++ spread trail gaps vs)
          ∙ split_whitespace-spread trail gaps v vs k.0 k.1)
