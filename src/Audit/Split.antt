-- ===== src/Audit/Split.antt =====
-- How what was written to the log splits into what was read of it, what is left of the open file, and
-- what the file behind it holds (crates/owlsentry-daemon/src/monitors/audit.rs, `run`).
use owl_sentry.Base.{
  ℕ, ◌≡◌, refl, sym, ap, ◌∙◌, ◌≢◌, Bool, true, ◌&&◌, List, [], ◌∷◌, ◌++◌, append_assoc, append-nil,
  length, drop, arith,
}
use owl_sentry.Text.Chunks.{
  first_line, split_inclusive, ends_line, first_line-drop, split_inclusive-cons,
  split_inclusive-append, ends_line-append, ends_line-drop,
}

abbrev pub concat : List (List ℕ) → List ℕ
concat [] = []
concat (xs ∷ xss) = xs ++ concat xss

pub concat-append : (xss yss : List (List ℕ)) → concat (xss ++ yss) ≡ concat xss ++ concat yss
concat-append [] yss = refl
concat-append (xs ∷ xss) yss =
    ap (λ r. xs ++ r) (concat-append xss yss) ∙ sym (append_assoc xs (concat xss) (concat yss))

-- The chunks read are lines, and the rest is ended.
pub record Lined (read : List (List ℕ)) (rest behind written : List ℕ) : Type 0 where
  pub rest_ends : ends_line true rest ≡ true
  pub behind_ends : ends_line true behind ≡ true
  pub written_ends : ends_line true written ≡ true
  pub as_lines : read ++ (split_inclusive rest ++ split_inclusive behind) ≡ split_inclusive written

pub record Split (read : List (List ℕ)) (rest behind written : List ℕ) (whole : Bool) : Type 0 where
  pub bytes : concat read ++ (rest ++ behind) ≡ written
  pub lined : whole ≡ true → Lined read rest behind written

append_last :
    (xss : List (List ℕ)) (x : List ℕ) (y z : List (List ℕ))
    → (xss ++ (x ∷ [])) ++ (y ++ z) ≡ xss ++ ((x ∷ y) ++ z)
append_last xss x y z = append_assoc xss (x ∷ []) (y ++ z)

-- A line is read of a rest that has one.
pub Split-read :
    {read : List (List ℕ)} {rest behind written : List ℕ} {whole : Bool}
    → rest ≢ []
    → Split read rest behind written whole
    → Split
        (read ++ (first_line rest ∷ []))
        (drop (length (first_line rest)) rest)
        behind
        written
        whole
Split-read {rest = []} some_left s = absurd (some_left refl)
Split-read {read = read} {rest = c ∷ cs} {behind = behind} some_left s =
    let line = first_line (c ∷ cs) in
    let rest = drop (length line) (c ∷ cs) in
    record {
      bytes =
          rw
            (
              concat-append read (line ∷ []),
              append-nil line,
              append_assoc (concat read) line (rest ++ behind),
            )
            (ap (λ r. concat read ++ r)
                (sym (append_assoc line rest behind)
                  ∙ ap (λ r. r ++ behind) (first_line-drop (c ∷ cs)))
              ∙ s.bytes);
      lined = λ w.
          let l = s.lined w in
          record {
            rest_ends = ends_line-drop true (c ∷ cs) l.rest_ends;
            behind_ends = l.behind_ends;
            written_ends = l.written_ends;
            as_lines =
                append_last read line (split_inclusive rest) (split_inclusive behind)
                ∙ ap (λ r. read ++ (r ++ split_inclusive behind)) (sym (split_inclusive-cons c cs))
                ∙ l.as_lines;
          };
    }

both : (a b : Bool) → (a && b) ≡ true → (a ≡ true) × (b ≡ true)
both a b h = ground arith

ends-append :
    (xs ys : List ℕ)
    → ends_line true xs ≡ true
    → ends_line true ys ≡ true
    → ends_line true (xs ++ ys) ≡ true
ends-append xs ys h k = ends_line-append true xs ys ∙ ap (λ b. ends_line b ys) h ∙ k

-- Bytes are appended to the file behind.
pub Split-append_behind :
    {read : List (List ℕ)} {rest behind written : List ℕ} {whole : Bool} (more : List ℕ)
    → Split read rest behind written whole
    → Split read rest (behind ++ more) (written ++ more) (whole && ends_line true more)
Split-append_behind {read} {rest} {behind} {written} {whole} more s = record {
  bytes =
      rw
        (
          sym s.bytes,
          append_assoc (concat read) (rest ++ behind) more,
          append_assoc rest behind more,
        )
        refl;
  lined = λ w.
      let (h, k) = both whole (ends_line true more) w in
      let l = s.lined h in
      record {
        rest_ends = l.rest_ends;
        behind_ends = ends-append behind more l.behind_ends k;
        written_ends = ends-append written more l.written_ends k;
        as_lines =
            rw
              (
                split_inclusive-append behind more l.behind_ends,
                split_inclusive-append written more l.written_ends,
                sym l.as_lines,
                append_assoc read (split_inclusive rest ++ split_inclusive behind)
                    (split_inclusive more),
                append_assoc (split_inclusive rest) (split_inclusive behind) (split_inclusive more),
              )
              refl;
      };
}

-- With nothing behind, the rest may as well stand there.
pub Split-shift :
    {read : List (List ℕ)} {rest written : List ℕ} {whole : Bool}
    → Split read rest [] written whole
    → Split read [] rest written whole
unfolding ends_line split_inclusive
Split-shift {rest} s = record {
  bytes = rw (append-nil rest) at s.bytes;
  lined = λ w.
      let l = s.lined w in
      record {
        rest_ends = refl;
        behind_ends = l.rest_ends;
        written_ends = l.written_ends;
        as_lines = rw (append-nil (split_inclusive rest)) at l.as_lines;
      };
}

pub Split-open :
    {read : List (List ℕ)} {rest written : List ℕ} {whole : Bool}
    → Split read [] rest written whole
    → Split read rest [] written whole
unfolding ends_line split_inclusive
Split-open {rest} s = record {
  bytes = rw (append-nil rest) s.bytes;
  lined = λ w.
      let l = s.lined w in
      record {
        rest_ends = l.behind_ends;
        behind_ends = refl;
        written_ends = l.written_ends;
        as_lines = rw (append-nil (split_inclusive rest)) l.as_lines;
      };
}

-- Bytes are appended to the open file, with nothing behind.
pub Split-append_rest :
    {read : List (List ℕ)} {rest written : List ℕ} {whole : Bool} (more : List ℕ)
    → Split read rest [] written whole
    → Split read (rest ++ more) [] (written ++ more) (whole && ends_line true more)
Split-append_rest more s = Split-open (Split-append_behind more (Split-shift s))
