-- ===== src/Audit/Alerts.antt =====
-- What the audit monitor makes of the lines and the events.
use mathlib.Core.Option.{some-injective, none-ne-some}
use mathlib.Core.Path.{subst}
use owl_sentry.Base.{
  ◌≤◌, ◌≡◌, refl, ◌↔◌, inl, inr, Bool, true, false, Option, none, some, arith, Bool-cases, nat_eq,
  list_eq, pair_eq, contains,
}
use owl_sentry.Text.{Text, after_last, Mentions}
use owl_sentry.Text.Laws.{Mentions-format}
use owl_sentry.Text.Numbers.{int_eq, ℤ}
use owl_sentry.Alert.Types.{rank, with_meta, DateTime, Alert, medium, critical, selinux}
use owl_sentry.I18n.{Lang, fr, en}
use owl_sentry.Messages.Selinux.{avc_denial, enforcing_disabled, policy_loaded}
use owl_sentry.Channel.{alert_of}
use owl_sentry.Audit.Events.{AvcDenial, AuditEvent, avc, exec, enforcing_off, policy_load}
use owl_sentry.Audit.Monitor.{
  has_critical_type, avc_severity, with_pid, avc_alert, exec_alert, event_to_alert, SelinuxRules,
}

-- The events that are critical: a denial on a critical type, and the end of enforcement.
abbrev pub is_critical : SelinuxRules → AuditEvent → Bool
is_critical rules (avc d) = has_critical_type rules d.tcontext
is_critical rules (exec exe auid) = false
is_critical rules enforcing_off = true
is_critical rules policy_load = false

-- An alert that fits an event: of SELinux, at least of medium severity, and critical exactly if the
-- event is.
abbrev pub Fits : SelinuxRules → AuditEvent → Alert → Type 0
Fits rules e a =
    (a.category ≡ selinux)
    × (rank medium ≤ rank a.severity)
    × ((a.severity ≡ critical) ↔ (is_critical rules e ≡ true))

with_pid-category : (p : Option ℤ) (a : Alert) → (with_pid p a).category ≡ a.category
unfolding with_meta
with_pid-category none a = refl
with_pid-category (some p) a = refl

with_pid-severity : (p : Option ℤ) (a : Alert) → (with_pid p a).severity ≡ a.severity
unfolding with_meta
with_pid-severity none a = refl
with_pid-severity (some p) a = refl

with_pid-what : (p : Option ℤ) (a : Alert) → (with_pid p a).what ≡ a.what
unfolding with_meta
with_pid-what none a = refl
with_pid-what (some p) a = refl

severity_fits :
    (rules : SelinuxRules) (d : AvcDenial)
    → (rank medium ≤ rank (avc_severity rules d))
      × ((avc_severity rules d ≡ critical) ↔ (has_critical_type rules d.tcontext ≡ true))
unfolding avc_severity rank
severity_fits rules d = ground arith

avc-Fits :
    (d : AvcDenial) (rules : SelinuxRules) (lang : Lang) (now : DateTime)
    → Fits rules (avc d) (avc_alert rules lang d now)
unfolding avc_alert with_meta alert_of
avc-Fits d rules lang now =
    let f = severity_fits rules d in
    rw (avc_alert, with_pid-category d.pid _, with_pid-severity d.pid _) (refl, f.0, f.1)

exec-Fits :
    (exe auid : Text) (rules : SelinuxRules) (lang : Lang) (now : DateTime)
    → Fits rules (exec exe auid) (exec_alert lang exe auid now)
unfolding exec_alert with_meta alert_of rank
exec-Fits exe auid rules lang now = (refl, omega arith, ground arith)

off-Fits :
    (rules : SelinuxRules) (lang : Lang) (now : DateTime)
    → Fits rules enforcing_off (alert_of critical selinux (enforcing_disabled lang) now)
unfolding alert_of rank
off-Fits rules lang now = (refl, omega arith, ground arith)

load-Fits :
    (rules : SelinuxRules) (lang : Lang) (now : DateTime)
    → Fits rules policy_load (alert_of medium selinux (policy_loaded lang) now)
unfolding alert_of rank
load-Fits rules lang now = (refl, omega arith, ground arith)

-- Whatever event makes an alert: the alert is of SELinux, at least of medium severity, and critical
-- exactly if the event is a denial on a critical type or the end of enforcement.
pub event_to_alert-Fits :
    (e : AuditEvent) (rules : SelinuxRules) (lang : Lang) (now : DateTime) (make : DateTime → Alert)
    → event_to_alert e rules lang ≡ some make
    → Fits rules e (make now)
unfolding event_to_alert avc_alert exec_alert with_meta alert_of rank
event_to_alert-Fits (avc d) rules lang now make h =
    subst (λ f. Fits rules (avc d) (f now)) (some-injective _ _ h) (avc-Fits d rules lang now)
event_to_alert-Fits (exec exe auid) rules lang now make h =
    elim (Bool-cases (contains (after_last 47 exe) rules.watched_commands)) [
      | inl w ↦
          subst (λ f. Fits rules (exec exe auid) (f now)) (some-injective _ _ (rw w at h))
            (exec-Fits exe auid rules lang now)
      | inr w ↦ absurd (none-ne-some _ (rw w at h))
    ]
event_to_alert-Fits enforcing_off rules lang now make h =
    subst (λ f. Fits rules enforcing_off (f now)) (some-injective _ _ h) (off-Fits rules lang now)
event_to_alert-Fits policy_load rules lang now make h =
    subst (λ f. Fits rules policy_load (f now)) (some-injective _ _ h) (load-Fits rules lang now)

-- A description that mentions the process, its permissions, the object and both contexts.
abbrev pub Describes : AvcDenial → Alert → Type 0
Describes d a =
    Mentions d.comm a.what
    × Mentions d.scontext a.what
    × Mentions d.perms a.what
    × Mentions d.target a.what
    × Mentions d.tclass a.what
    × Mentions d.tcontext a.what

avc_denial-Describes :
    (d : AvcDenial) (lang : Lang) (text : Text)
    → text ≡ (avc_denial lang d.comm d.perms d.target d.tclass d.scontext d.tcontext).what
    → Mentions d.comm text
      × Mentions d.scontext text
      × Mentions d.perms text
      × Mentions d.target text
      × Mentions d.tclass text
      × Mentions d.tcontext text
unfolding avc_denial
avc_denial-Describes d fr text e = rw e (
  Mentions-format d.comm _ (inr (inl refl)),
  Mentions-format d.scontext _ (inr (inr (inr (inl refl)))),
  Mentions-format d.perms _ (inr (inr (inr (inr (inr (inl refl)))))),
  Mentions-format d.target _ (inr (inr (inr (inr (inr (inr (inr (inl refl)))))))),
  Mentions-format d.tclass _ (inr (inr (inr (inr (inr (inr (inr (inr (inr (inl refl)))))))))),
  Mentions-format d.tcontext _
      (inr (inr (inr (inr (inr (inr (inr (inr (inr (inr (inr (inl refl)))))))))))),
)
avc_denial-Describes d en text e = rw e (
  Mentions-format d.comm _ (inr (inl refl)),
  Mentions-format d.scontext _ (inr (inr (inr (inl refl)))),
  Mentions-format d.perms _ (inr (inr (inr (inr (inr (inl refl)))))),
  Mentions-format d.target _ (inr (inr (inr (inr (inr (inr (inr (inl refl)))))))),
  Mentions-format d.tclass _ (inr (inr (inr (inr (inr (inr (inr (inr (inr (inl refl)))))))))),
  Mentions-format d.tcontext _
      (inr (inr (inr (inr (inr (inr (inr (inr (inr (inr (inr (inl refl)))))))))))),
)

-- The description of a denial mentions, in either language, the process, its context, the
-- permissions denied, the object, its class and its context.
pub avc_alert-Describes :
    (d : AvcDenial) (rules : SelinuxRules) (lang : Lang) (now : DateTime)
    → Describes d (avc_alert rules lang d now)
unfolding avc_alert with_meta alert_of
avc_alert-Describes d rules lang now = avc_denial-Describes d lang _ (with_pid-what d.pid _)
