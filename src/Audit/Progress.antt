-- ===== src/Audit/Progress.antt =====
-- crates/owlsentry-daemon/src/monitors/audit.rs, `run`: the loop by itself gets through what is left of the
-- file that it has open.
use mathlib.Core.List.{cons≢nil, head-eq_of_cons-eq, tail-eq_of_cons-eq}
use owl_sentry.Base.{
  ℕ, ◌+◌, ◌≡◌, refl, sym, ap, ◌∙◌, ◌≢◌, true, Option, List, [], ◌∷◌, ◌++◌, append_assoc, append-nil,
  drop, drop-drop, length, All, nat_eq, list_eq, pair_eq,
}
use owl_sentry.Text.{Text}
use owl_sentry.I18n.{Lang}
use owl_sentry.Channel.{Env}
use owl_sentry.Audit.Monitor.{on_reading, SelinuxRules, Follower}
use owl_sentry.Text.Chunks.{first_line, split_inclusive, split_inclusive-cons}
use owl_sentry.Audit.Tail.{
  unread, chunks, as_reading, take_in, World, reading, chunk, Step, reads, Reach, here, next,
}
use owl_sentry.Audit.Exact.{chunks-append_chunk}

-- The first of the lines of a text is what is read next, and the others are the lines of the rest.
first_of :
    (xs l : List ℕ) (ls : List (List ℕ))
    → split_inclusive xs ≡ l ∷ ls
    → (xs ≢ []) × (first_line xs ≡ l) × (split_inclusive (drop (length (first_line xs)) xs) ≡ ls)
unfolding split_inclusive
first_of [] l ls h = absurd (cons≢nil (sym h))
first_of (c ∷ cs) l ls h =
    let e = sym (split_inclusive-cons c cs) ∙ h in
    (cons≢nil, head-eq_of_cons-eq e, tail-eq_of_cons-eq e)

nothing_left : (xs : List ℕ) → split_inclusive xs ≡ [] → xs ≡ []
nothing_left [] h = refl
nothing_left (c ∷ cs) h = absurd (cons≢nil (sym (split_inclusive-cons c cs) ∙ h))

module _ (utf8 : List ℕ → Option Text) (env : Env) (rules : SelinuxRules) (lang : Lang) where
  -- The loop goes on behind a line.
  abbrev pub GoesOn : List ℕ → Type 0
  GoesOn bytes =
      (f : Follower)
      → f.is_running ≡ true
      → (on_reading env rules lang (as_reading utf8 (chunk bytes)) f).is_running ≡ true

  Reach-first :
      {w v u : World}
      → Step utf8 env rules lang w v
      → Reach utf8 env rules lang v u
      → Reach utf8 env rules lang w u
  Reach-first st here = next here st
  Reach-first st (next r last) = next (Reach-first st r) last

  -- The world behind the line that is read next
  behind_line : World → World
  behind_line w =
      take_in utf8 env rules lang (chunk (first_line (unread w)))
        (record w { position = w.position + length (first_line (unread w)) })

  behind_line-lines :
      (w : World) (l : List ℕ) (ls : List (List ℕ))
      → split_inclusive (unread w) ≡ l ∷ ls
      → (unread w ≢ [])
        × (first_line (unread w) ≡ l)
        × (split_inclusive (unread (behind_line w)) ≡ ls)
  unfolding behind_line take_in
  behind_line-lines w l ls h =
      let (some_left, first, rest) = first_of (unread w) l ls h in
      (
        some_left,
        first,
        ap split_inclusive
              (sym (drop-drop (length (first_line (unread w))) w.position (w.contents w.opened)))
            ∙ rest,
      )

  -- As long as the loop is about to read and goes on behind each of the lines that are left in the open file, there
  -- are steps of the loop alone, behind which it has read all of these lines, in their order, nothing
  -- is left, and it goes on, with the files as they were.
  pub can_catch_up :
      (ls : List (List ℕ)) (w : World)
      → split_inclusive (unread w) ≡ ls
      → All GoesOn ls
      → w.follower.is_running ≡ true
      → w.phase ≡ reading
      → (u : World) × Reach utf8 env rules lang w u
        × (unread u ≡ [])
        × (chunks u.acts ≡ chunks w.acts ++ ls)
        × (u.follower.is_running ≡ true)
        × (u.contents ≡ w.contents)
  unfolding behind_line take_in
  can_catch_up [] w h k r p =
      (w, here, nothing_left (unread w) h, sym (append-nil (chunks w.acts)), r, refl)
  can_catch_up (l ∷ ls) w h k r p =
      let (some_left, first, rest) = behind_line-lines w l ls h in
      let v = behind_line w in
      let runs : v.follower.is_running ≡ true = rw first (k.0 w.follower r) in
      let (u, reach, done, read, goes, same) = can_catch_up ls v rest k.1 runs p in
      let told : chunks v.acts ≡ chunks w.acts ++ (l ∷ []) =
        chunks-append_chunk w.acts (first_line (unread w))
        ∙ ap (λ x. chunks w.acts ++ (x ∷ [])) first in
      (
        u,
        Reach-first (reads r p some_left) reach,
        done,
        read ∙ ap (λ x. x ++ ls) told ∙ append_assoc (chunks w.acts) (l ∷ []) ls,
        goes,
        same,
      )
