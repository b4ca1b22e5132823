-- ===== src/Dispatcher/Journal.antt =====
-- What stands in the files of the journal (crates/owlsentry-daemon/src/logging.rs) behind the calls of
-- `write`.
use owl_sentry.Base.{
  ℕ, ◌≡◌, refl, sym, ap, ◌∙◌, inl, inr, Bool, true, false, ◌&&◌, Option, List, [], ◌∷◌, ◌++◌, map,
  append_assoc, append-nil, All, All-append, next_u64, Bool-cases, Subseq, stop, keep, skip,
  eq_refl, nat_eq, ◌==◌, list_eq, pair_eq,
}
use owl_sentry.Text.{Text, format}
use owl_sentry.Text.Lines.{lines}
use owl_sentry.Alert.Types.{DateTime, Alert}
use owl_sentry.Ipc.Wire.{frame, wire, IsOneLine, lines-wire}
use owl_sentry.Dispatcher.{run, start}
use owl_sentry.Dispatcher.Ids.{numbered, written, run-start}
use owl_sentry.Dispatcher.Writer.{
  WriteEnd, unserialised, poisoned, torn, unended, unflushed, done, Files, append_on, Call,
  line_and_feed, write_line, journal,
}

-- The call fails before it writes anything, or writes the whole line on one day and succeeds.
abbrev pub IsWholeEnd : WriteEnd → Call → Type 0
IsWholeEnd unserialised c = Unit
IsWholeEnd poisoned c = Unit
IsWholeEnd done c = c.feed_day ≡ c.line_day
IsWholeEnd _ c = ⊥

abbrev pub IsWhole : Call → Type 0
IsWhole c = IsWholeEnd c.ends c

abbrev pub succeeds : WriteEnd → Bool
succeeds done = true
succeeds _ = false

-- What the dispatcher learns of the calls
abbrev pub as_fits : List Call → List (Bool × Alert)
as_fits = map (λ c. (succeeds c.ends, c.alert))

-- The calls that succeed on one day
abbrev pub fits_on : ℕ → List Call → List (Bool × Alert)
fits_on day = map (λ c. (succeeds c.ends && (day == c.line_day), c.alert))

fits_on-Subseq :
    (day n : ℕ) (calls : List Call)
    → Subseq (written (numbered n (fits_on day calls))) (written (numbered n (as_fits calls)))
unfolding numbered
fits_on-Subseq day n [] = stop
fits_on-Subseq day n (c ∷ calls) =
    let rest = fits_on-Subseq day (next_u64 n) calls in
    elim (Bool-cases (succeeds c.ends)) [
      | inr e ↦ rw e rest
      | inl e ↦ elim (Bool-cases (day == c.line_day)) [
        | inl k ↦ rw (e, k) (keep (record c.alert { id = n }) rest)
        | inr k ↦ rw (e, k) (skip (record c.alert { id = n }) rest)
      ]
    ]

module _ (encode : Alert → Text) (day : ℕ) where
  -- The lines that `write` reports as written on that day
  abbrev pub reported : ℕ → List Call → List Text
  reported n calls = map encode (written (numbered n (fits_on day calls)))

  -- A line that is written on one day, seen on another or on this.
  line_and_feed-other :
      (c : Call) (files : Files)
      → c.feed_day ≡ c.line_day
      → (day == c.line_day) ≡ false
      → line_and_feed encode c files day ≡ files day
  unfolding line_and_feed append_on
  line_and_feed-other c files same e = rw (same, e) refl

  line_and_feed-this :
      (c : Call) (files : Files)
      → c.feed_day ≡ c.line_day
      → (day == c.line_day) ≡ true
      → line_and_feed encode c files day ≡ files day ++ frame (encode c.alert)
  unfolding line_and_feed append_on
  line_and_feed-this c files same e =
      rw (same, e) (append_assoc (files day) (encode c.alert) (10 ∷ []))

  wire-append :
      (b : Text) (bs : List Text) (file : Text)
      → (file ++ frame b) ++ wire bs ≡ file ++ wire (b ∷ bs)
  unfolding wire format
  wire-append b bs file = append_assoc file (frame b) (wire bs)

  done-wire :
      (n : ℕ) (c : Call) (calls : List Call) (files : Files)
      → c.ends ≡ done
      → c.feed_day ≡ c.line_day
      → line_and_feed encode (record c { alert = record c.alert { id = n } }) files day
          ++ wire (reported (next_u64 n) calls)
        ≡ files day ++ wire (reported n (c ∷ calls))
  unfolding numbered
  done-wire n c calls files ends same =
      let a = record c.alert { id = n } in
      let c' = record c { alert = a } in
      let told : succeeds c.ends ≡ true = ap succeeds ends in
      elim (Bool-cases (day == c.line_day)) [
        | inl e ↦
            rw (told, e)
              (ap (λ t. t ++ wire (reported (next_u64 n) calls))
                  (line_and_feed-this c' files same e)
                ∙ wire-append (encode a) (reported (next_u64 n) calls) (files day))
        | inr e ↦
            rw (told, e)
              (ap (λ t. t ++ wire (reported (next_u64 n) calls))
                (line_and_feed-other c' files same e))
      ]

  unwritten-wire :
      (n : ℕ) (c : Call) (calls : List Call)
      → succeeds c.ends ≡ false
      → reported n (c ∷ calls) ≡ reported (next_u64 n) calls
  unfolding numbered
  unwritten-wire n c calls e = rw e refl

  -- The file of the day behind one call and those behind it
  call-wire :
      (n : ℕ) (w : WriteEnd) (c : Call) (calls : List Call) (files : Files)
      → c.ends ≡ w
      → IsWholeEnd w c
      → (write_line encode w (record c { alert = record c.alert { id = n } }) files).0 day
          ++ wire (reported (next_u64 n) calls)
        ≡ files day ++ wire (reported n (c ∷ calls))
  unfolding write_line
  call-wire n unserialised c calls files e h =
      ap (λ ls. files day ++ wire ls) (sym (unwritten-wire n c calls (ap succeeds e)))
  call-wire n poisoned c calls files e h =
      ap (λ ls. files day ++ wire ls) (sym (unwritten-wire n c calls (ap succeeds e)))
  call-wire n done c calls files e h = done-wire n c calls files e h
  call-wire n (torn piece) c calls files e h = absurd h
  call-wire n unended c calls files e h = absurd h
  call-wire n unflushed c calls files e h = absurd h

  journal-wire :
      (n : ℕ) (calls : List Call) (files : Files)
      → All IsWhole calls
      → journal encode n calls files day ≡ files day ++ wire (reported n calls)
  unfolding journal numbered wire format
  journal-wire n [] files h = sym (append-nil (files day))
  journal-wire n (c ∷ calls) files h =
      journal-wire (next_u64 n) calls _ h.1 ∙ call-wire n c.ends c calls files refl h.0

  wire_join : (bs cs : List Text) → wire bs ++ wire cs ≡ wire (bs ++ cs)
  unfolding wire format
  wire_join [] cs = refl
  wire_join (b ∷ bs) cs =
      append_assoc (frame b) (wire bs) (wire cs) ∙ ap (λ r. frame b ++ r) (wire_join bs cs)

  -- From a start, and as long as each call of `write` fails before it writes anything, or writes a
  -- whole line on one day and succeeds, and no alert that is written has a line feed in it or a
  -- carriage return at its end: the lines of the file of a day are those that it held before, whole
  -- lines too, and then the alerts of the calls that succeeded on that day, in their order and
  -- numbered, which are among those that the dispatcher counts as written.
  pub lines-journal :
      (from_timestamp : ℕ → ℕ → Option DateTime) (now : DateTime) (capacity : ℕ) (calls : List Call)
      (files : Files) (old : List Text)
      → files day ≡ wire old
      → All IsOneLine old
      → All IsWhole calls
      → All IsOneLine (reported 1 calls)
      → (lines (journal encode 1 calls files day) ≡ old ++ reported 1 calls)
        × Subseq
            (written (numbered 1 (fits_on day calls)))
            (run from_timestamp (as_fits calls) (start now capacity)).writer.lines
  lines-journal from_timestamp now capacity calls files old e p h o = (
    ap lines (
          journal-wire 1 calls files h
          ∙ ap (λ t. t ++ wire (reported 1 calls)) e
          ∙ wire_join old (reported 1 calls)
          ∙ sym (append-nil (wire (old ++ reported 1 calls))))
        ∙ lines-wire (old ++ reported 1 calls) [] (All-append IsOneLine old _ p o) tt
        ∙ append-nil (old ++ reported 1 calls),
    rw ((run-start from_timestamp now capacity (as_fits calls)).2) (fits_on-Subseq day 1 calls),
  )

  wire-snoc : (bs : List Text) (b : Text) → wire (bs ++ (b ∷ [])) ≡ wire bs ++ frame b
  unfolding wire format
  wire-snoc bs b = sym (wire_join bs (b ∷ [])) ∙ ap (λ r. wire bs ++ r) (append-nil (frame b))

  -- A write that breaks off spoils the next alert of the day too: in a file of whole lines, the alert
  -- that is written well behind it stands on one line with the piece, so neither is a line of its own.
  pub torn_joins :
      (bodies : List Text) (piece : Text) (c d : Call) (files : Files)
      → files day ≡ wire bodies
      → c.line_day ≡ day
      → d.line_day ≡ day
      → d.feed_day ≡ day
      → All IsOneLine bodies
      → IsOneLine (piece ++ encode d.alert)
      → lines ((write_line encode done d (write_line encode (torn piece) c files).0).0 day)
        ≡ bodies ++ ((piece ++ encode d.alert) ∷ [])
  unfolding write_line append_on line_and_feed
  torn_joins bodies piece c d files e p q r o k =
      let b = encode d.alert in
      let file : (write_line encode done d (write_line encode (torn piece) c files).0).0 day
          ≡ ((wire bodies ++ piece) ++ b) ++ (10 ∷ []) =
        rw (p, q, r, eq_refl day, e) refl in
      let joined : ((wire bodies ++ piece) ++ b) ++ (10 ∷ [])
          ≡ wire (bodies ++ ((piece ++ b) ∷ [])) ++ [] =
        ap (λ t. t ++ (10 ∷ [])) (append_assoc (wire bodies) piece b)
        ∙ append_assoc (wire bodies) (piece ++ b) (10 ∷ [])
        ∙ sym (wire-snoc bodies (piece ++ b))
        ∙ sym (append-nil (wire (bodies ++ ((piece ++ b) ∷ [])))) in
      ap lines (file ∙ joined)
      ∙ lines-wire (bodies ++ ((piece ++ b) ∷ [])) [] (All-append IsOneLine bodies _ o (k, tt)) tt
      ∙ append-nil (bodies ++ ((piece ++ b) ∷ []))
