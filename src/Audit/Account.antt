-- ===== src/Audit/Account.antt =====
-- crates/owlsentry-daemon/src/monitors/audit.rs, `run`: the account of what was written, in every run beside
-- a log that is written to and turned over.
use mathlib.Core.Path.{subst}
use mathlib.Core.Bool.{true≢false, false≢true}
use owl_sentry.Base.{
  ℕ, ◌≡◌, refl, sym, ap, ◌∙◌, ◌≢◌, inl, inr, Bool, true, false, ◌&&◌, ◌||◌, not, Option, some, List,
  [], ◌++◌, Bool-cases, nat_eq, ◌==◌, list_eq, pair_eq, drop-length, length, ltb, arith,
  nat_beq_iff, eq_refl,
}
use owl_sentry.Text.{Text}
use owl_sentry.I18n.{Lang}
use owl_sentry.Channel.{Env, Outbox}
use owl_sentry.Audit.Monitor.{
  on_reading, SelinuxRules, Follower, at_end, at_end_without, read_error,
}
use owl_sentry.Text.Chunks.{split_inclusive, ends_line}
use owl_sentry.Audit.Tail.{
  has_turned, update, unread, chunks, is_named, can_turn, next_phase, take_in, started, World,
  Phase, reading, sleeping, opening, Step, reads, ends, breaks, looks, looks_in_vain, opens,
  opens_in_vain, appends, turns, removes, truncates, Reach, here, next,
}
use owl_sentry.Audit.Writes.{appends-Exact, turns-Exact, is_named-some}
use owl_sentry.Audit.Exact.{Exact, met-Exact, reads-Exact, opens-Exact, has_turned_iff, some-inj}

both : (a b : Bool) → (a && b) ≡ true → (a ≡ true) × (b ≡ true)
both a b h = ground arith

-- A world whose loop is elsewhere, with nothing else changed
moves-Exact :
    {w : World} {n : ℕ} (phase : Phase)
    → (phase ≢ reading → unread w ≡ [])
    → ((ino len : ℕ) → phase ≡ opening ino len → (ino ≡ n) × (n ≢ w.opened))
    → Exact w n
    → Exact (record w { phase = phase }) n
moves-Exact phase done seen x = record {
  at = x.at;
  known = x.known;
  within = x.within;
  split = x.split;
  done = λ _ k. done k;
  seen = seen;
}

looks-Exact :
    {w : World} {n : ℕ} (len : ℕ) (b : Bool)
    → w.phase ≡ sleeping
    → b ≡ not (n == w.opened)
    → Exact w n
    → Exact (record w { phase = next_phase b n len }) n
looks-Exact {w} {n} len true p e x =
    let other : n ≢ w.opened = λ h. true≢false (e ∙ ap not ((nat_beq_iff n w.opened).1 h)) in
    moves-Exact (opening n len) (λ _. x.done other (λ h. cc)) (λ ino l h. (cc, other)) x
looks-Exact len false p e x = moves-Exact reading (λ h. absurd (h refl)) (λ ino l h. cc) x

-- While the log changes only as the loop can see, the account of what was written is exact.
abbrev pub Account : World → Type 0
Account w = w.exact ≡ true → (n : ℕ) × Exact w n

kept :
    {w u : World}
    → ((n : ℕ) → Exact w n → Exact u n)
    → Account w
    → w.exact ≡ true
    → (n : ℕ) × Exact u n
kept f v e = let (n, x) = v e in (n, f n x)

looks-Account :
    {w : World} (ino : ℕ)
    → w.phase ≡ sleeping
    → w.named ≡ some ino
    → Account w
    → Account (record w {
      phase = next_phase (has_turned ino (length (w.contents ino)) w) ino (length (w.contents ino));
    })
looks-Account {w} ino p q v e =
    let (n, x) = v e in
    let y = subst (Exact w) (some-inj (sym x.at ∙ q)) x in
    (ino, looks-Exact _ _ p (has_turned_iff y) y)

appends-Account :
    {w : World} (i : ℕ) (bytes : List ℕ)
    → Account w
    → Account (record w {
      contents = update i (w.contents i ++ bytes) w.contents;
      written = w.written ++ bytes;
      exact = w.exact && is_named i w.named;
      whole = w.whole && ends_line true bytes;
    })
appends-Account {w} i bytes v e =
    let (h, k) = both w.exact (is_named i w.named) e in
    let (n, x) = v h in
    let same : i ≡ n = is_named-some i n (sym (ap (is_named i) x.at) ∙ k) in
    (i, appends-Exact i bytes _ (subst (Exact w) (sym same) x))

turns-Account :
    {w : World} (j : ℕ)
    → j ≢ w.opened
    → Account w
    → Account (record w {
      contents = update j [] w.contents;
      named = some j;
      exact = w.exact && (is_named w.opened w.named && can_turn w.phase (unread w));
    })
turns-Account {w} j new v e =
    let (h, k) = both w.exact (is_named w.opened w.named && can_turn w.phase (unread w)) e in
    let (k, can) = both (is_named w.opened w.named) (can_turn w.phase (unread w)) k in
    let (n, x) = v h in
    let same : w.opened ≡ n = is_named-some w.opened n (sym (ap (is_named w.opened) x.at) ∙ k) in
    (j, turns-Exact j _ new can (subst (Exact w) (sym same) x))

module _ (utf8 : List ℕ → Option Text) (env : Env) (rules : SelinuxRules) (lang : Lang) where
  at_end-shut :
      (ino len position : ℕ) (f : Follower)
      → (on_reading env rules lang (at_end ino len position false) f).ino ≡ f.ino
  unfolding on_reading
  at_end-shut ino len position f = elim (Bool-cases (not (ino == f.ino) || ltb len position)) [
    | inl e ↦ ground (arith, e)
    | inr e ↦ ground (arith, e)
  ]

  Step-Account : {w u : World} → Step utf8 env rules lang w u → Account w → Account u
  unfolding take_in on_reading
  Step-Account (reads r p some_left) v = kept (λ n. reads-Exact utf8 env rules lang p some_left) v
  Step-Account {w} (ends r p empty) v =
      kept (λ n. moves-Exact sleeping (λ _. empty) (λ ino len h. cc)) v
  Step-Account {w} (breaks r p) v =
      kept (λ n. met-Exact utf8 env rules lang {w = w} read_error refl) v
  Step-Account (looks ino r p q) v = looks-Account ino p q v
  Step-Account {w} (looks_in_vain r p) v =
      kept (λ n. met-Exact utf8 env rules lang {w = w} at_end_without refl) v
  Step-Account {w} (opens ino len m r p q) v =
      kept (λ n. opens-Exact utf8 env rules lang ino len m p q) v
  Step-Account {w} (opens_in_vain ino len r p) v =
      kept
        (λ n.
          met-Exact utf8 env rules lang {w = w} (at_end ino len w.position false)
            (at_end-shut ino len w.position w.follower))
        v
  Step-Account (appends i bytes) v = appends-Account i bytes v
  Step-Account (turns j new) v = turns-Account j new v
  Step-Account removes v = λ e. absurd (false≢true e)
  Step-Account (truncates i) v = λ e. absurd (false≢true e)

  pub Reach-Account : {w u : World} → Account w → Reach utf8 env rules lang w u → Account u
  Reach-Account v here = v
  Reach-Account v (next r st) = Step-Account st (Reach-Account v r)

-- The opened log: nothing of what it holds is left to be read, and nothing was read.
pub started-Exact :
    (contents : ℕ → List ℕ) (i : ℕ) (out : Outbox) → Exact (started contents i out) i
unfolding chunks ends_line split_inclusive
started-Exact contents i out = record {
  at = refl;
  known = refl;
  within = omega arith;
  split =
      rw (drop-length (contents i), eq_refl i)
        (record {
          bytes = refl;
          lined = λ h. record {
            rest_ends = refl;
            behind_ends = refl;
            written_ends = refl;
            as_lines = refl;
          };
        });
  done = λ h. absurd (h refl);
  seen = λ ino len h. cc;
}
