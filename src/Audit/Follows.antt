-- ===== src/Audit/Follows.antt =====
-- crates/owlsentry-daemon/src/monitors/audit.rs, `run`: what the monitor makes of what it reads, from the
-- opened log on.
use mathlib.Core.Path.{subst}
use mathlib.Core.Bool.{false≢true}
use owl_sentry.Base.{
  ℕ, ◌≡◌, refl, sym, ap, ◌∙◌, inl, inr, Bool, true, false, Option, none, some, List, [], ◌∷◌, ◌++◌,
  Bool-cases, if◌then◌else◌, nat_eq, list_eq, pair_eq, map,
}
use owl_sentry.Text.{Text}
use owl_sentry.I18n.{Lang}
use owl_sentry.Channel.{Env, Outbox}
use owl_sentry.Audit.Monitor.{
  on_reading, follow, SelinuxRules, Follower, Reading, at_end, at_end_without, read_error,
}
use owl_sentry.Text.Chunks.{split_inclusive}
use owl_sentry.Audit.Tail.{
  unread, chunks, as_reading, take_in, started, open_log, World, Act, chunk, met, Step, reads, ends,
  breaks, looks, looks_in_vain, opens, opens_in_vain, appends, turns, removes, truncates, Reach,
  here, next,
}
use owl_sentry.Audit.Exact.{behind}
use owl_sentry.Audit.Account.{Account, Reach-Account, started-Exact}

if_true : {A : Type 0} (b : Bool) (x y : A) → b ≡ true → (if b then x else y) ≡ x
if_true b x y e = rw e refl

if_false : {A : Type 0} (b : Bool) (x y : A) → b ≡ false → (if b then x else y) ≡ y
if_false b x y e = rw e refl

started_lem :
    (contents : ℕ → List ℕ) (named : Option ℕ) (stats seeks : Bool) (out : Outbox) {w : World}
    → open_log contents named stats seeks out ≡ some w
    → (i : ℕ) × (started contents i out ≡ w)
unfolding open_log
started_lem contents none stats seeks out e = cc
started_lem contents (some i) true true out e = (i, cc)
started_lem contents (some i) true false out e = cc
started_lem contents (some i) false seeks out e = cc

module _ (utf8 : List ℕ → Option Text) (env : Env) (rules : SelinuxRules) (lang : Lang) where
  follow-append :
      (rs : List Reading) (r : Reading) (f : Follower)
      → (follow env rules lang rs f).is_running ≡ true
      → follow env rules lang (rs ++ (r ∷ [])) f
        ≡ on_reading env rules lang r (follow env rules lang rs f)
  unfolding follow
  follow-append [] r f h = if_true f.is_running _ f h
  follow-append (q ∷ rs) r f h = elim (Bool-cases f.is_running) [
    | inl e ↦
        let goes = λ (ts : List Reading).
          if_true f.is_running (follow env rules lang ts (on_reading env rules lang q f)) f e in
        goes (rs ++ (r ∷ []))
        ∙ follow-append rs r (on_reading env rules lang q f)
            (sym (ap (λ g. g.is_running) (goes rs)) ∙ h)
        ∙ ap (on_reading env rules lang r) (sym (goes rs))
    | inr e ↦
        let stays =
          if_false f.is_running (follow env rules lang rs (on_reading env rules lang q f)) f e in
        absurd (false≢true (sym e ∙ sym (ap (λ g. g.is_running) stays) ∙ h))
  ]

  map_last :
      (acts : List Act) (act : Act)
      → map (as_reading utf8) (acts ++ (act ∷ []))
        ≡ map (as_reading utf8) acts ++ (as_reading utf8 act ∷ [])
  map_last [] act = refl
  map_last (a ∷ acts) act = ap (◌∷◌ (as_reading utf8 a)) (map_last acts act)

  -- The monitor is what its loop makes of all it has met.
  abbrev Follows : Follower → World → Type 0
  Follows start w = w.follower ≡ follow env rules lang (map (as_reading utf8) w.acts) start

  take_in-follows :
      (start : Follower) (act : Act) (w : World)
      → w.follower.is_running ≡ true
      → w.follower ≡ follow env rules lang (map (as_reading utf8) w.acts) start
      → on_reading env rules lang (as_reading utf8 act) w.follower
        ≡ follow env rules lang (map (as_reading utf8) (w.acts ++ (act ∷ []))) start
  take_in-follows start act w r e =
      ap (on_reading env rules lang (as_reading utf8 act)) e
      ∙ sym (
          follow-append (map (as_reading utf8) w.acts) (as_reading utf8 act) start
            (sym (ap (λ f. f.is_running) e) ∙ r))
      ∙ ap (λ rs. follow env rules lang rs start) (sym (map_last w.acts act))

  Step-Follows :
      (start : Follower) {w u : World}
      → Step utf8 env rules lang w u
      → Follows start w
      → Follows start u
  unfolding take_in
  Step-Follows start {w} (reads r p some_left) v = take_in-follows start (chunk _) w r v
  Step-Follows start (ends r p empty) v = v
  Step-Follows start {w} (breaks r p) v = take_in-follows start (met read_error) w r v
  Step-Follows start (looks ino r p q) v = v
  Step-Follows start {w} (looks_in_vain r p) v = take_in-follows start (met at_end_without) w r v
  Step-Follows start {w} (opens ino len m r p q) v =
      take_in-follows start (met (at_end ino len w.position true)) w r v
  Step-Follows start {w} (opens_in_vain ino len r p) v =
      take_in-follows start (met (at_end ino len w.position false)) w r v
  Step-Follows start (appends i bytes) v = v
  Step-Follows start (turns j new) v = v
  Step-Follows start removes v = v
  Step-Follows start (truncates i) v = v

  Reach-Follows :
      {w u : World} → Follows w.follower w → Reach utf8 env rules lang w u → Follows w.follower u
  Reach-Follows v here = v
  Reach-Follows {w} v (next r st) = Step-Follows w.follower st (Reach-Follows v r)

  started-Follows :
      (contents : ℕ → List ℕ) (i : ℕ) (out : Outbox)
      → Follows (started contents i out).follower (started contents i out)
  unfolding follow
  started-Follows contents i out = refl

  -- From the opened log on, beside any writers: while these append ended lines to the file at the
  -- path, and put an empty file in the place of the open one only when the reader is not behind the
  -- end or has nothing left of it, the path names a file, the lines read, then those left of the open
  -- file, then those of the file behind it are the lines appended since the opening, in their order;
  -- and the monitor is what its loop makes of all that it has met.
  pub open_log-follows :
      (contents : ℕ → List ℕ) (named : Option ℕ) (stats seeks : Bool) (out : Outbox)
      (start w : World)
      → open_log contents named stats seeks out ≡ some start
      → Reach utf8 env rules lang start w
      → w.exact ≡ true
      → w.whole ≡ true
      → (n : ℕ) × (w.named ≡ some n)
        × (chunks w.acts ++ (split_inclusive (unread w) ++ split_inclusive (behind n w))
            ≡ split_inclusive w.written)
        × (w.follower ≡ follow env rules lang (map (as_reading utf8) w.acts) start.follower)
  open_log-follows contents named stats seeks out start w e r exact whole =
      let (i, same) = started_lem contents named stats seeks out e in
      let v = subst (λ s. Follows s.follower s) same (started-Follows contents i out) in
      let a = subst Account same (λ _. (i, started-Exact contents i out)) in
      let (n, x) = Reach-Account utf8 env rules lang a r exact in
      (n, x.at, (x.split.lined whole).as_lines, Reach-Follows v r)
