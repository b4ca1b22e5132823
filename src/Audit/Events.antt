-- ===== src/Audit/Events.antt =====
-- crates/owlsentry-daemon/src/monitors/audit.rs: `parse_line`, from a line of the audit log to an event.
use owl_sentry.Base.{
  Bool, false, ◌||◌, Option, none, some, List, if◌then◌else◌, or_default, nat_eq, ◌==◌, list_eq,
  pair_eq, lookup,
}
use owl_sentry.Text.{
  Text, codes, is_whitespace, strip_prefix, contains_text, split_once, break_at, trim,
}
use owl_sentry.Text.Numbers.{int_eq, parse_i32, ℤ}
use owl_sentry.Net.Line.{◌>>=◌, lift, Parsed, parsed, refused, panics}
use owl_sentry.Audit.KeyValues.{parse_kv}

pub record AvcDenial : Type 0 where
  pub perms : Text
  pub pid : Option ℤ
  pub comm : Text
  pub target : Text
  pub tclass : Text
  pub scontext : Text
  pub tcontext : Text
  pub permissive : Bool

pub data AuditEvent : Type 0 where
  avc : AvcDenial → AuditEvent
  exec : (exe auid : Text) → AuditEvent
  enforcing_off : AuditEvent
  policy_load : AuditEvent

unfoldable pub record_type : Text → Option Text
record_type line = elim (strip_prefix (codes "type=") line) [
  | none ↦ none
  | some rest ↦ some (break_at is_whitespace rest).0
]

-- The permissions between the first brace and the next closing one, trimmed
unfoldable pub perms_of : Text → Option Text
perms_of line = elim (split_once 123 line) [
  | none ↦ none
  | some (before, rest) ↦ elim (split_once 125 rest) [
    | none ↦ none
    | some (inside, after) ↦ some (trim inside)
  ]
]

abbrev pub KeyValues : Type 0
KeyValues = List (Text × Text)

abbrev pub or_unknown : Option Text → Text
or_unknown v = or_default (codes "?") v

abbrev pub or_else : Option Text → Option Text → Option Text
or_else none w = w
or_else (some v) w = some v

abbrev pub is_value : Text → Text → KeyValues → Bool
is_value key value kv = elim (lookup key kv) [ none ↦ false | some v ↦ v == value ]

unfoldable pub avc_of : Text → KeyValues → AvcDenial
avc_of perms kv = record {
  perms = perms;
  pid = elim (lookup (codes "pid") kv) [ none ↦ none | some v ↦ parse_i32 v ];
  comm = or_unknown (lookup (codes "comm") kv);
  target = or_unknown (
      or_else (lookup (codes "name") kv)
        (or_else (lookup (codes "path") kv) (lookup (codes "laddr") kv)));
  tclass = or_unknown (lookup (codes "tclass") kv);
  scontext = or_unknown (lookup (codes "scontext") kv);
  tcontext = or_unknown (lookup (codes "tcontext") kv);
  permissive = is_value (codes "permissive") (codes "1") kv;
}

-- The map of a line's fields; the parser may panic.
abbrev pub fields_of : Text → Parsed KeyValues
fields_of line = elim (parse_kv line) [ none ↦ panics | some kv ↦ parsed kv ]

unfoldable pub parse_avc : Text → Parsed AuditEvent
unfolding perms_of avc_of
parse_avc line =
    if contains_text (codes "denied") line
    then lift (perms_of line)
      >>= (λ perms. fields_of line >>= (λ kv. parsed (avc (avc_of perms kv))))
    else refused

unfoldable pub parse_syscall : Text → Parsed AuditEvent
parse_syscall line = fields_of line >>= (λ kv.
    lift (lookup (codes "exe") kv)
    >>= (λ exe. parsed (exec exe (or_unknown (lookup (codes "auid") kv)))))

unfoldable pub parse_status : Text → Parsed AuditEvent
parse_status line = fields_of line >>= (λ kv.
    if is_value (codes "enforcing") (codes "0") kv then parsed enforcing_off else refused)

unfoldable pub parse_line : Text → Parsed AuditEvent
unfolding record_type parse_avc parse_syscall parse_status
parse_line line = lift (record_type line) >>= (λ rtype.
    if rtype == codes "AVC" || rtype == codes "USER_AVC"
    then parse_avc line
    else if rtype == codes "SYSCALL"
    then parse_syscall line
    else if rtype == codes "MAC_STATUS"
    then parse_status line
    else if rtype == codes "MAC_POLICY_LOAD"
    then parsed policy_load
    else refused)
