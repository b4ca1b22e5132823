-- ===== src/Audit/Exact.antt =====
-- crates/owlsentry-daemon/src/monitors/audit.rs, `run`: the lines of the log beside those that are read.
use owl_sentry.Base.{
  ℕ, ◌+◌, ◌≤◌, ◌≡◌, refl, sym, ap, ◌∙◌, ◌≢◌, inl, inr, true, false, not, Option, some, List, [],
  ◌∷◌, ◌++◌, Bool-cases, Option-cases, if◌then◌else◌, nat_eq, ◌==◌, list_eq, pair_eq, length,
  length-drop, drop-drop, arith, eq_refl, ne_false, nat_beq_iff,
}
use owl_sentry.Text.{Text, is_empty, trim_end}
use owl_sentry.Net.Line.{Parsed, parsed, refused, panics}
use owl_sentry.Audit.Events.{AuditEvent, parse_line}
use owl_sentry.I18n.{Lang}
use owl_sentry.Channel.{Env}
use owl_sentry.Audit.Monitor.{
  event_to_alert, on_event, on_parsed, on_line, on_reading, SelinuxRules, Follower, Reading, at_end,
}
use owl_sentry.Text.Chunks.{first_line, length-first_line-le}
use owl_sentry.Audit.Split.{Split, Split-read, Split-open}
use owl_sentry.Audit.Tail.{
  unread, chunks, has_turned, as_reading, take_in, World, reading, opening, Act, chunk, met,
}

-- What the path names, if the reader has another file open.
abbrev pub behind : ℕ → World → List ℕ
behind n w = if n == w.opened then [] else w.contents n

-- The path names `n`, the loop knows which file its reader has open, and what was written is what was
-- read, what is left of that file and what stands behind it.
pub record Exact (w : World) (n : ℕ) : Type 0 where
  pub at : w.named ≡ some n
  pub known : w.follower.ino ≡ w.opened
  pub within : w.position ≤ length (w.contents w.opened)
  pub split : Split (chunks w.acts) (unread w) (behind n w) w.written w.whole
  pub done : n ≢ w.opened → w.phase ≢ reading → unread w ≡ []
  pub seen : (ino len : ℕ) → w.phase ≡ opening ino len → (ino ≡ n) × (n ≢ w.opened)

pub chunks-append_chunk :
    (acts : List Act) (bytes : List ℕ)
    → chunks (acts ++ (chunk bytes ∷ [])) ≡ chunks acts ++ (bytes ∷ [])
unfolding chunks
chunks-append_chunk [] bytes = refl
chunks-append_chunk (chunk b ∷ acts) bytes = ap (◌∷◌ b) (chunks-append_chunk acts bytes)
chunks-append_chunk (met r ∷ acts) bytes = chunks-append_chunk acts bytes

pub chunks-append_met :
    (acts : List Act) (r : Reading) → chunks (acts ++ (met r ∷ [])) ≡ chunks acts
unfolding chunks
chunks-append_met [] r = refl
chunks-append_met (chunk b ∷ acts) r = ap (◌∷◌ b) (chunks-append_met acts r)
chunks-append_met (met q ∷ acts) r = chunks-append_met acts r

pub some-inj : {a b : ℕ} → some a ≡ some b → a ≡ b
some-inj h = cc

-- The look at the path tells whether another file is there.
pub has_turned_iff :
    {w : World} {n : ℕ} → Exact w n → has_turned n (length (w.contents n)) w ≡ not (n == w.opened)
unfolding has_turned
has_turned_iff {w} {n} x = elim (Bool-cases (n == w.opened)) [
  | inl e ↦
      let same : n ≡ w.opened = (nat_beq_iff n w.opened).0 e in
      let fits : length (w.contents n) ≡ length (w.contents w.opened) =
        ap (λ k. length (w.contents k)) same in
      ground (arith, x.known, x.within)
  | inr e ↦ ground (arith, x.known)
]

module _ (utf8 : List ℕ → Option Text) (env : Env) (rules : SelinuxRules) (lang : Lang) where
  on_event-ino : (e : AuditEvent) (f : Follower) → (on_event env rules lang e f).ino ≡ f.ino
  unfolding on_event
  on_event-ino e f = elim (Option-cases (event_to_alert e rules lang)) [
    | inl h ↦ rw (on_event, h) refl
    | inr (make, h) ↦ rw (on_event, h) refl
  ]

  on_parsed-ino :
      (e : Parsed AuditEvent) (f : Follower) → (on_parsed env rules lang e f).ino ≡ f.ino
  unfolding on_parsed
  on_parsed-ino (parsed e) f = on_event-ino e f
  on_parsed-ino refused f = refl
  on_parsed-ino panics f = refl

  on_line-ino : (text : Text) (f : Follower) → (on_line env rules lang text f).ino ≡ f.ino
  unfolding on_line
  on_line-ino text f = elim (Bool-cases (is_empty (trim_end text))) [
    | inl e ↦ rw e refl
    | inr e ↦ rw e (on_parsed-ino (parse_line (trim_end text)) f)
  ]

  chunk-ino :
      (bytes : List ℕ) (f : Follower)
      → (on_reading env rules lang (as_reading utf8 (chunk bytes)) f).ino ≡ f.ino
  unfolding as_reading on_reading
  chunk-ino bytes f = elim (Option-cases (utf8 bytes)) [
    | inl h ↦ rw (as_reading, h) refl
    | inr (text, h) ↦ rw (as_reading, h) (on_line-ino text f)
  ]

  -- Nothing but the phase and what was met changes.
  pub met-Exact :
      {w : World} {n : ℕ} (r : Reading)
      → (on_reading env rules lang r w.follower).ino ≡ w.follower.ino
      → Exact w n
      → Exact (take_in utf8 env rules lang (met r) (record w { phase = reading })) n
  unfolding take_in as_reading
  met-Exact {w} r e x = record {
    at = x.at;
    known = e ∙ x.known;
    within = x.within;
    split = rw (chunks-append_met w.acts r) x.split;
    done = λ _ h. absurd (h refl);
    seen = λ ino len h. cc;
  }

  pub reads-Exact :
      {w : World} {n : ℕ}
      → w.phase ≡ reading
      → unread w ≢ []
      → Exact w n
      → Exact
          (take_in utf8 env rules lang
            (chunk (first_line (unread w)))
            (record w { position = w.position + length (first_line (unread w)) }))
          n
  unfolding take_in
  reads-Exact {w} p some_left x =
      let l = first_line (unread w) in
      record {
        at = x.at;
        known = chunk-ino l w.follower ∙ x.known;
        within = omega (
          arith,
          x.within,
          length-first_line-le (unread w),
          length-drop w.position (w.contents w.opened),
        );
        split =
            rw
              (
                chunks-append_chunk w.acts l,
                sym (drop-drop (length l) w.position (w.contents w.opened)),
              )
              (Split-read some_left x.split);
        done = λ _ h. absurd (h p);
        seen = λ ino len h. cc;
      }

  pub opens-Exact :
      {w : World} {n : ℕ} (ino len m : ℕ)
      → w.phase ≡ opening ino len
      → w.named ≡ some m
      → Exact w n
      → Exact
          (record (take_in utf8 env rules lang (met (at_end ino len w.position true)) w) {
            opened = m;
            position = 0;
            phase = reading;
          })
          n
  unfolding take_in as_reading on_reading
  opens-Exact {w} {n} ino len m p q x =
      let (seen, other) = x.seen ino len p in
      let same : m ≡ n = some-inj (sym q ∙ x.at) in
      let turned : (ino == w.follower.ino) ≡ false =
        ne_false ino w.follower.ino (λ e. other (sym seen ∙ e ∙ x.known)) in
      rw (same, turned)
        (record {
          at = x.at;
          known = seen;
          within = omega arith;
          split =
              rw (eq_refl n, chunks-append_met w.acts)
                (Split-open (rw (ne_false n w.opened other, x.done other (λ e. cc)) at x.split));
          done = λ h. absurd (h refl);
          seen = λ i l h. cc;
        })
