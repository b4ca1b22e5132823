-- ===== src/Audit/Writes.antt =====
-- crates/owlsentry-daemon/src/monitors/audit.rs, `run`: what others write to the log, and the account of
-- what is read of it.
use mathlib.Core.Bool.{true≢false, false≢true}
use mathlib.Core.Path.{subst}
use owl_sentry.Base.{
  ℕ, ◌≡◌, refl, sym, ◌∙◌, ◌≢◌, inl, inr, Bool, true, ◌&&◌, some, List, [], ◌∷◌, ◌++◌, Bool-cases,
  nat_eq, ◌==◌, list_eq, pair_eq, length-append, drop-append, arith, eq_refl, ne_false, nat_beq_iff,
}
use owl_sentry.Text.Chunks.{ends_line}
use owl_sentry.Audit.Split.{Split-append_behind, Split-append_rest}
use owl_sentry.Audit.Tail.{
  unread, is_named, can_turn, update, World, Phase, reading, sleeping, opening,
}
use owl_sentry.Audit.Exact.{Exact}

pub is_named-some : (i n : ℕ) → is_named i (some n) ≡ true → i ≡ n
unfolding is_named
is_named-some i n h = sym ((nat_beq_iff n i).0 h)

-- A file that may be turned over is one that the reader is not at the end of, or has read.
can_turn-done :
    (phase : Phase) (rest : List ℕ) → can_turn phase rest ≡ true → phase ≢ reading → rest ≡ []
unfolding can_turn
can_turn-done reading rest h ne = absurd (ne refl)
can_turn-done sleeping [] h ne = refl
can_turn-done sleeping (c ∷ cs) h ne = absurd (false≢true h)
can_turn-done (opening ino len) rest h ne = absurd (false≢true h)

can_turn-opening :
    (phase : Phase) (rest : List ℕ) (ino len : ℕ)
    → can_turn phase rest ≡ true
    → phase ≢ opening ino len
unfolding can_turn
can_turn-opening phase rest ino len h e = false≢true (rw e at h)

-- Bytes are appended to the file that the reader has open,
append_open-Exact :
    {w : World} (bytes : List ℕ) (b : Bool)
    → Exact w w.opened
    → Exact
        (record w {
          contents = update w.opened (w.contents w.opened ++ bytes) w.contents;
          written = w.written ++ bytes;
          exact = b;
          whole = w.whole && ends_line true bytes;
        })
        w.opened
append_open-Exact {w} bytes b x =
    let shift = drop-append w.position (w.contents w.opened) bytes x.within in
    record {
      at = x.at;
      known = x.known;
      within =
          rw (eq_refl w.opened)
            (omega (arith, x.within, length-append (w.contents w.opened) bytes));
      split =
          rw (eq_refl w.opened, shift) (Split-append_rest bytes (rw (eq_refl w.opened) at x.split));
      done = λ h. absurd (h refl);
      seen = x.seen;
    }

-- or to the one behind it.
append_behind-Exact :
    {w : World} (n : ℕ) (bytes : List ℕ) (b : Bool)
    → n ≢ w.opened
    → Exact w n
    → Exact
        (record w {
          contents = update n (w.contents n ++ bytes) w.contents;
          written = w.written ++ bytes;
          exact = b;
          whole = w.whole && ends_line true bytes;
        })
        n
append_behind-Exact {w} n bytes b other x =
    let kept = ne_false w.opened n (λ e. other (sym e)) in
    let apart = ne_false n w.opened other in
    record {
      at = x.at;
      known = x.known;
      within = rw kept x.within;
      split = rw (kept, apart, eq_refl n) (Split-append_behind bytes (rw apart at x.split));
      done = λ h k. rw kept (x.done h k);
      seen = x.seen;
    }

pub appends-Exact :
    {w : World} (n : ℕ) (bytes : List ℕ) (b : Bool)
    → Exact w n
    → Exact
        (record w {
          contents = update n (w.contents n ++ bytes) w.contents;
          written = w.written ++ bytes;
          exact = b;
          whole = w.whole && ends_line true bytes;
        })
        n
appends-Exact {w} n bytes b x = elim (Bool-cases (n == w.opened)) [
  | inl e ↦
      let same : w.opened ≡ n = sym ((nat_beq_iff n w.opened).0 e) in
      subst
        (λ k.
          Exact
            (record w {
              contents = update k (w.contents k ++ bytes) w.contents;
              written = w.written ++ bytes;
              exact = b;
              whole = w.whole && ends_line true bytes;
            })
            k)
        same (append_open-Exact bytes b (subst (Exact w) (sym same) x))
  | inr e ↦
      append_behind-Exact n bytes b (λ h. true≢false (sym ((nat_beq_iff n w.opened).1 h) ∙ e)) x
]

-- An empty file takes the place of the open one.
pub turns-Exact :
    {w : World} (j : ℕ) (b : Bool)
    → j ≢ w.opened
    → can_turn w.phase (unread w) ≡ true
    → Exact w w.opened
    → Exact (record w { contents = update j [] w.contents; named = some j; exact = b }) j
turns-Exact {w} j b new can x =
    let kept = ne_false w.opened j (λ e. new (sym e)) in
    let apart = ne_false j w.opened new in
    record {
      at = refl;
      known = x.known;
      within = rw kept x.within;
      split = rw (kept, apart, eq_refl j) (rw (eq_refl w.opened) at x.split);
      done = λ h k. rw kept (can_turn-done w.phase (unread w) can k);
      seen = λ ino len e. absurd (can_turn-opening w.phase (unread w) ino len can e);
    }
