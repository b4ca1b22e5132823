-- ===== src/Ipc/Wire.antt =====
-- The messages as lines of the socket: crates/owlsentry-daemon/src/ipc_server.rs, `send`, and
-- crates/owlsentry-gui/src/client.rs, `send_request`. serde's writing of a message is a parameter.
use owl_sentry.Base.{
  ℕ, ◌≡◌, refl, ap, ◌∙◌, inl, inr, Bool, List, [], ◌∷◌, ◌++◌, map, append_assoc, All, Bool-cases,
  if◌then◌else◌, ◌==◌, nat_eq, list_eq, pair_eq,
}
use owl_sentry.Text.{Text, format, split_on, push_front, is_empty}
use owl_sentry.Text.Laws.{Lacks, split_on-append, split_on-word}
use owl_sentry.Text.Lines.{drop_cr, ended_lines, lines}

-- `buf.push(b'\n')`
abbrev pub frame : Text → Text
frame body = body ++ (10 ∷ [])

-- What stands in the socket when these bodies have been sent.
unfoldable pub wire : List Text → Text
unfolding format
wire bodies = format (map frame bodies)

-- serde writes no line feed, and no carriage return at the end.
pub record IsOneLine (body : Text) : Type 0 where
  pub no_feed : Lacks (λ c. c == 10) body
  pub no_return : drop_cr body ≡ body

-- The piece of a message behind the last line feed is a line of its own, if there is any.
abbrev pub last_line : Text → List Text
last_line part = if is_empty part then [] else part ∷ []

push_front-nonempty :
    (c : ℕ) (ls : List Text) → (k : Text) × (ks : List Text) × (push_front c ls ≡ k ∷ ks)
unfolding push_front
push_front-nonempty c [] = (_, _, refl)
push_front-nonempty c (l ∷ ls) = (_, _, refl)

split_on-nonempty :
    (p : ℕ → Bool) (s : Text) → (k : Text) × (ks : List Text) × (split_on p s ≡ k ∷ ks)
unfolding split_on
split_on-nonempty p [] = ([], [], refl)
split_on-nonempty p (c ∷ s) = elim (Bool-cases (p c)) [
  | inl e ↦ rw e ([], split_on p s, refl)
  | inr e ↦ rw e (push_front-nonempty c (split_on p s))
]

ended_lines-cons :
    (body : Text) (ls : List Text) (k : Text) (ks : List Text)
    → ls ≡ k ∷ ks
    → ended_lines (body ∷ ls) ≡ drop_cr body ∷ ended_lines ls
unfolding ended_lines
ended_lines-cons body ls k ks e = rw e refl

-- The lines of the whole messages and of a piece of the next, which is all that is there when a connection
-- breaks off, are the messages and that piece.
pub lines-wire :
    (bodies : List Text) (part : Text)
    → All IsOneLine bodies
    → Lacks (λ c. c == 10) part
    → lines (wire bodies ++ part) ≡ bodies ++ last_line part
unfolding lines ended_lines wire format
lines-wire [] part h k = rw (split_on-word (λ c. c == 10) part k) refl
lines-wire (body ∷ bodies) part h k =
    ap lines (
      append_assoc (frame body) (format (map frame bodies)) part
      ∙ append_assoc body (10 ∷ []) (format (map frame bodies) ++ part))
    ∙ ap ended_lines (split_on-append (λ c. c == 10) body 10 (wire bodies ++ part) h.0.no_feed refl)
    ∙ (let (l, ls, e) = split_on-nonempty (λ c. c == 10) (wire bodies ++ part) in
        ended_lines-cons body _ l ls e)
    ∙ ap (λ b. b ∷ lines (wire bodies ++ part)) (h.0.no_return)
    ∙ ap (◌∷◌ body) (lines-wire bodies part h.1 k)
