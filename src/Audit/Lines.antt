-- ===== src/Audit/Lines.antt =====
-- Whole lines of the audit log: what is read of a record that was written field by field, and what
-- the monitor has sent after any number of readings.
use owl_sentry.Base.{
  ap, ℕ, suc, ◌≤◌, ◌<◌, ◌≡◌, refl, ◌∙◌, inl, inr, Bool, true, false, not, ◌&&◌, ◌||◌, none, some,
  List, [], ◌∷◌, ◌++◌, arith, ltb, if◌then◌else◌, Bool-cases, Option-cases, length, length-append,
  All, nat_eq, ◌==◌, list_eq, pair_eq, lookup,
}
use owl_sentry.Text.{Text, codes, is_whitespace, strip_prefix, split_once, is_empty, trim_end}
use owl_sentry.Text.Laws.{Lacks, strip_prefix-append}
use owl_sentry.Alert.Types.{rank, DateTime, Alert, medium, selinux}
use owl_sentry.I18n.{Lang}
use owl_sentry.Channel.{emit-All, Env}
use owl_sentry.Net.Line.{Parsed, parsed, refused, panics}
use owl_sentry.Audit.KeyValues.{
  last_space, key_before, value_of, add_pair, parse_pairs, parse_kv, pairs, map_of,
}
use owl_sentry.Audit.RoundTrip.{
  render, IsWritable, pairs_of, break_at-fields, value_of-write_value, parse_pairs-render, Field,
}
use owl_sentry.Audit.Events.{record_type, or_unknown, parse_syscall, parse_line, AuditEvent, exec}
use owl_sentry.Audit.Monitor.{
  event_to_alert, on_event, on_parsed, on_line, on_reading, follow, SelinuxRules, Follower, Reading,
  line, at_end, at_end_without, read_error,
}
use owl_sentry.Audit.Alerts.{event_to_alert-Fits}

-- The map of a record: its type and its fields.
abbrev pub record_pairs : Text → List Field → List (Text × Text)
record_pairs t fs = pairs_of fs (add_pair (codes "type") t [])

abbrev type_field : Text → Field
type_field t = record { key = codes "type"; value = t; is_quoted = false }

key_before-type : key_before (codes "type") ≡ some (codes "type")
unfolding key_before last_space is_whitespace
key_before-type = refl

syscall_unquoted : strip_prefix (codes "\"") (codes "SYSCALL") ≡ none
unfolding strip_prefix
syscall_unquoted = refl

either_branch :
    (P : Follower → Type 0) (b : Bool) (s t : Follower) → P s → P t → P (if b then s else t)
either_branch P true s t h k = h
either_branch P false s t h k = k

value_of-type :
    (t : Text) (fs : List Field)
    → Lacks is_whitespace t
    → strip_prefix (codes "\"") t ≡ none
    → value_of (t ++ render fs) ≡ (t, render fs)
unfolding is_whitespace
value_of-type t fs w q =
    let key : Lacks is_whitespace (codes "type") = (refl, (refl, (refl, (refl, tt)))) in
    let no_equals : Lacks (λ c. c == 61) (codes "type") = (refl, (refl, (refl, (refl, tt)))) in
    value_of-write_value (type_field t) fs (key, no_equals, (w, q))

split_once-type : (r : Text) → split_once 61 (codes "type=" ++ r) ≡ some (codes "type", r)
unfolding split_once
split_once-type r = refl

last_step :
    (n : ℕ) (rest before after key value : Text) (m : List (Text × Text))
    → split_once 61 rest ≡ some (before, after)
    → key_before before ≡ some key
    → value_of after ≡ (value, [])
    → parse_pairs (suc n) rest m ≡ pairs (add_pair key value m)
unfolding parse_pairs
last_step n rest before after key value m s k v = rw (parse_pairs, s, k, v) refl

next_step :
    (n c : ℕ) (rest before after key value more : Text) (m : List (Text × Text))
    → split_once 61 rest ≡ some (before, after)
    → key_before before ≡ some key
    → value_of after ≡ (value, c ∷ more)
    → parse_pairs (suc n) rest m ≡ parse_pairs n (c ∷ more) (add_pair key value m)
unfolding parse_pairs
next_step n c rest before after key value more m s k v = rw (parse_pairs, s, k, v) refl

parse_kv-record :
    (t : Text) (fs : List Field)
    → Lacks is_whitespace t
    → strip_prefix (codes "\"") t ≡ none
    → All IsWritable fs
    → parse_kv (codes "type=" ++ (t ++ render fs)) ≡ some (record_pairs t fs)
unfolding parse_kv
parse_kv-record t [] w q h =
    let text = codes "type=" ++ (t ++ []) in
    ap map_of (
      last_step (length text) text _ _ _ _ [] (split_once-type (t ++ [])) key_before-type
        (value_of-type t [] w q))
parse_kv-record t (f ∷ fs) w q h =
    let text = codes "type=" ++ (t ++ render (f ∷ fs)) in
    let enough : length (render (f ∷ fs)) < length text =
      omega (arith, length-append t (render (f ∷ fs))) in
    ap map_of (
      next_step (length text) _ text _ _ _ _ _ [] (split_once-type (t ++ render (f ∷ fs)))
        key_before-type (value_of-type t (f ∷ fs) w q)
      ∙ parse_pairs-render (length text) (f ∷ fs) (add_pair (codes "type") t []) h enough)

record_type-record :
    (t : Text) (fs : List Field)
    → Lacks is_whitespace t
    → record_type (codes "type=" ++ (t ++ render fs)) ≡ some t
unfolding record_type
record_type-record t fs w =
    rw (record_type, strip_prefix-append (codes "type=") (t ++ render fs), break_at-fields t fs w)
      refl

parse_syscall_of :
    (text : Text) (kv : List (Text × Text)) (exe : Text)
    → parse_kv text ≡ some kv
    → lookup (codes "exe") kv ≡ some exe
    → parse_syscall text ≡ parsed (exec exe (or_unknown (lookup (codes "auid") kv)))
unfolding parse_syscall
parse_syscall_of text kv exe h e = cc

parse_line_of :
    (text : Text) (e : AuditEvent)
    → record_type text ≡ some (codes "SYSCALL")
    → parse_syscall text ≡ parsed e
    → parse_line text ≡ parsed e
unfolding parse_line
parse_line_of text e t h = rw (parse_line, t) h

-- A record of a call of the system that was written field by field is read back: with a field `exe`
-- among the fields it becomes the event of that executable, with the user of the field `auid`, or
-- `?` without one.
pub parse_line-syscall :
    (fs : List Field) (exe : Text)
    → All IsWritable fs
    → lookup (codes "exe") (record_pairs (codes "SYSCALL") fs) ≡ some exe
    → parse_line (codes "type=" ++ (codes "SYSCALL" ++ render fs))
      ≡ parsed (exec exe (or_unknown (lookup (codes "auid") (record_pairs (codes "SYSCALL") fs))))
unfolding parse_line parse_syscall is_whitespace
parse_line-syscall fs exe h e =
    let w : Lacks is_whitespace (codes "SYSCALL") =
      (refl, (refl, (refl, (refl, (refl, (refl, (refl, tt))))))) in
    parse_line_of _ _ (record_type-record (codes "SYSCALL") fs w) (
      parse_syscall_of _ (record_pairs (codes "SYSCALL") fs) exe
        (parse_kv-record (codes "SYSCALL") fs w syscall_unquoted h) e)

module _ (env : Env) (rules : SelinuxRules) (lang : Lang) where
  -- An alert of SELinux, at least of medium severity.
  abbrev pub IsSelinux : Alert → Type 0
  IsSelinux a = (a.category ≡ selinux) × (rank medium ≤ rank a.severity)

  on_event-IsSelinux :
      (e : AuditEvent) (f : Follower)
      → All IsSelinux f.out.sent
      → All IsSelinux (on_event env rules lang e f).out.sent
  unfolding on_event
  on_event-IsSelinux e f h = elim (Option-cases (event_to_alert e rules lang)) [
    | inl n ↦ rw (on_event, n) h
    | inr (make, k) ↦
        let good : (now : DateTime) → IsSelinux (make now) =
          λ now. let fits = event_to_alert-Fits e rules lang now make k in (fits.0, fits.1) in
        rw (on_event, k) (emit-All IsSelinux env make f.out good h)
  ]

  on_parsed-IsSelinux :
      (r : Parsed AuditEvent) (f : Follower)
      → All IsSelinux f.out.sent
      → All IsSelinux (on_parsed env rules lang r f).out.sent
  unfolding on_parsed
  on_parsed-IsSelinux (parsed e) f h = on_event-IsSelinux e f h
  on_parsed-IsSelinux refused f h = h
  on_parsed-IsSelinux panics f h = h

  on_reading-IsSelinux :
      (r : Reading) (f : Follower)
      → All IsSelinux f.out.sent
      → All IsSelinux (on_reading env rules lang r f).out.sent
  unfolding on_reading on_line
  on_reading-IsSelinux (line text) f h = elim (Bool-cases (is_empty (trim_end text))) [
    | inl b ↦ rw (on_reading, on_line, b) h
    | inr b ↦ rw (on_reading, on_line, b) (on_parsed-IsSelinux (parse_line (trim_end text)) f h)
  ]
  on_reading-IsSelinux (at_end ino len position opens) f h =
      elim (Bool-cases ((not (ino == f.ino) || ltb len position) && opens)) [
        | inl b ↦ rw (on_reading, b) h
        | inr b ↦ rw (on_reading, b) h
      ]
  on_reading-IsSelinux at_end_without f h = h
  on_reading-IsSelinux read_error f h = h

  -- Whatever the monitor reads, over any number of rotations of the file: all alerts that it sends
  -- are of SELinux and at least of medium severity, if those sent before are.
  pub follow-IsSelinux :
      (rs : List Reading) (f : Follower)
      → All IsSelinux f.out.sent
      → All IsSelinux (follow env rules lang rs f).out.sent
  unfolding follow
  follow-IsSelinux [] f h = h
  follow-IsSelinux (r ∷ rs) f h =
      either_branch (λ g. All IsSelinux g.out.sent) f.is_running _ _
        (follow-IsSelinux rs (on_reading env rules lang r f) (on_reading-IsSelinux r f h)) h
