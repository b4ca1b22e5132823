-- ===== src/Audit/Monitor.antt =====
-- crates/owlsentry-daemon/src/monitors/audit.rs: `event_to_alert`, and the loop of `run` over what
-- it reads: a line, or the end of the file with what the system says of the path.
use owl_sentry.Base.{
  ℕ, ◌+◌, Bool, false, not, ◌&&◌, ◌||◌, Option, none, some, List, [], ◌∷◌, ltb, if◌then◌else◌, any,
  nat_eq, ◌==◌, list_eq, pair_eq, contains,
}
use owl_sentry.Text.{Text, codes, contains_text, is_empty, trim_end, after_last}
use owl_sentry.Text.Numbers.{int_eq, show_int, ℤ}
use owl_sentry.Alert.Types.{with_meta, DateTime, Alert, Severity, medium, high, critical, selinux}
use owl_sentry.I18n.{Lang}
use owl_sentry.Messages.Selinux.{avc_denial, selinux_tool_used, enforcing_disabled, policy_loaded}
use owl_sentry.Channel.{emit, alert_of, Env, Outbox}
use owl_sentry.Net.Line.{Parsed, parsed, refused, panics}
use owl_sentry.Audit.Events.{
  parse_line, AvcDenial, AuditEvent, avc, exec, enforcing_off, policy_load,
}

-- `SelinuxRules` (crates/owlsentry-common/src/config.rs)
pub record SelinuxRules : Type 0 where
  pub critical_types : List Text
  pub watched_commands : List Text

abbrev pub has_critical_type : SelinuxRules → Text → Bool
has_critical_type rules tcontext = any (λ t. contains_text t tcontext) rules.critical_types

unfoldable pub avc_severity : SelinuxRules → AvcDenial → Severity
avc_severity rules d =
    if has_critical_type rules d.tcontext then critical else if d.permissive then medium else high

abbrev pub with_pid : Option ℤ → Alert → Alert
with_pid none a = a
with_pid (some pid) a = with_meta (codes "pid") (show_int pid) a

unfoldable pub avc_alert : SelinuxRules → Lang → AvcDenial → DateTime → Alert
unfolding avc_severity
avc_alert rules lang d now = with_pid d.pid (
    with_meta (codes "tclass") d.tclass (
      with_meta (codes "tcontext") d.tcontext (
        with_meta (codes "scontext") d.scontext (
          with_meta (codes "perms") d.perms (
            with_meta (codes "comm") d.comm (
              alert_of (avc_severity rules d) selinux
                (avc_denial lang d.comm d.perms d.target d.tclass d.scontext d.tcontext) now))))))

unfoldable pub exec_alert : Lang → Text → Text → DateTime → Alert
exec_alert lang exe auid now = with_meta (codes "auid") auid (
    with_meta (codes "exe") exe
      (alert_of medium selinux (selinux_tool_used lang (after_last 47 exe) auid) now))

unfoldable pub event_to_alert : AuditEvent → SelinuxRules → Lang → Option (DateTime → Alert)
event_to_alert (avc d) rules lang = some (avc_alert rules lang d)
event_to_alert (exec exe auid) rules lang =
    if contains (after_last 47 exe) rules.watched_commands
    then some (exec_alert lang exe auid)
    else none
event_to_alert enforcing_off rules lang = some (alert_of critical selinux (enforcing_disabled lang))
event_to_alert policy_load rules lang = some (alert_of medium selinux (policy_loaded lang))

-- What the loop meets: a line; the end of the file, where the path has an inode and a length, the
-- reader a position, and the path can be opened or not; the end of the file without such a path; an
-- error of reading.
pub data Reading : Type 0 where
  line : Text → Reading
  at_end : (ino len position : ℕ) (opens : Bool) → Reading
  at_end_without : Reading
  read_error : Reading

-- The monitor: the inode that it follows, how often it has opened the path again, and whether it
-- goes on. It stops at an error, at a panic, and when the dispatcher has stopped.
pub record Follower : Type 0 where
  pub ino : ℕ
  pub reopened : ℕ
  pub is_running : Bool
  pub out : Outbox

module _ (env : Env) (rules : SelinuxRules) (lang : Lang) where
  unfoldable pub on_event : AuditEvent → Follower → Follower
  unfolding event_to_alert
  on_event e f = elim (event_to_alert e rules lang) [
    | none ↦ f
    | some make ↦ let out = emit env make f.out in record f { out = out; is_running = out.is_open }
  ]

  unfoldable pub on_parsed : Parsed AuditEvent → Follower → Follower
  unfolding on_event
  on_parsed (parsed e) f = on_event e f
  on_parsed refused f = f
  on_parsed panics f = record f { is_running = false }

  unfoldable pub on_line : Text → Follower → Follower
  unfolding on_parsed
  on_line text f = if is_empty (trim_end text) then f else on_parsed (parse_line (trim_end text)) f

  -- The path is opened again if it is another file or has become shorter than what was read.
  unfoldable pub on_reading : Reading → Follower → Follower
  unfolding on_line
  on_reading (line text) f = on_line text f
  on_reading (at_end ino len position opens) f =
      if (not (ino == f.ino) || ltb len position) && opens
      then record f { ino = ino; reopened = f.reopened + 1 }
      else f
  on_reading at_end_without f = f
  on_reading read_error f = record f { is_running = false }

  unfoldable pub follow : List Reading → Follower → Follower
  unfolding on_reading
  follow [] f = f
  follow (r ∷ rs) f = let rest = follow rs (on_reading r f) in if f.is_running then rest else f
