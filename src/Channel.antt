-- ===== src/Channel.antt =====
-- The channel by which the monitors send alerts to the dispatcher (crates/owlsentry-daemon/src/main.rs),
-- and their loops, which return as soon as a send fails because the dispatcher has stopped.
use owl_sentry.Base.{
  In, refl, ℕ, inl, inr, Bool, false, List, [], ◌∷◌, ◌++◌, if◌then◌else◌, Bool-cases, length, All,
  All-append, nat_eq, list_eq, pair_eq,
}
use owl_sentry.Alert.Types.{new_alert, DateTime, Alert, Severity, Category}
use owl_sentry.Messages.Msg.{Msg}

-- What is outside a monitor: whether its nth send succeeds, and the time at which it makes its nth
-- alert.
pub record Env : Type 0 where
  pub accepts : ℕ → Bool
  pub clock : ℕ → DateTime

-- The alerts sent so far; `is_open` is false once a send has failed.
pub record Outbox : Type 0 where
  pub sent : List Alert
  pub is_open : Bool

-- `tx.send(alert).await`
unfoldable pub emit : Env → (DateTime → Alert) → Outbox → Outbox
emit env make out =
    if env.accepts (length out.sent)
    then record out { sent = out.sent ++ (make (env.clock (length out.sent)) ∷ []) }
    else record out { is_open = false }

-- What holds of the alerts sent so far and of a new one, holds of all.
pub emit-All :
    (P : Alert → Type 0) (env : Env) (make : DateTime → Alert) (out : Outbox)
    → ((now : DateTime) → P (make now))
    → All P out.sent
    → All P (emit env make out).sent
unfolding emit
emit-All P env make out p h = elim (Bool-cases (env.accepts (length out.sent))) [
  | inl e ↦ rw e (All-append P out.sent _ h (p _, tt))
  | inr e ↦ rw e h
]

-- An alert with the four texts of a message.
unfoldable pub alert_of : Severity → Category → Msg → DateTime → Alert
unfolding new_alert
alert_of severity category m now = new_alert now severity category m.title m.what m.why m.how

-- A loop that the first failed send leaves.
module _ {X S : Type 0} (out : S → Outbox) (body : X → S → S) where
  unfoldable pub for_each : List X → S → S
  for_each [] s = s
  for_each (x ∷ xs) s = let rest = for_each xs (body x s) in if (out s).is_open then rest else s

  -- What every turn keeps, the loop keeps.
  pub for_each_inv :
      (P : S → Type 0)
      → ((x : X) (s : S) → P s → P (body x s))
      → (xs : List X) (s : S) → P s
      → P (for_each xs s)
  unfolding for_each
  for_each_inv P step [] s h = h
  for_each_inv P step (x ∷ xs) s h = elim (Bool-cases (out s).is_open) [
    | inl e ↦ rw e (for_each_inv P step xs (body x s) (step x s h))
    | inr e ↦ rw e h
  ]

  -- So does a loop of which each turn keeps it for the element that it is made with.
  pub for_each_In :
      (P : S → Type 0) (xs : List X)
      → ((x : X) → In x xs → (s : S) → P s → P (body x s))
      → (s : S) → P s
      → P (for_each xs s)
  unfolding for_each
  for_each_In P [] step s h = h
  for_each_In P (x ∷ xs) step s h = elim (Bool-cases (out s).is_open) [
    | inl e ↦ rw e (for_each_In P xs (λ y m. step y (inr m)) (body x s) (step x (inl refl) s h))
    | inr e ↦ rw e h
  ]

  -- The first turn of a loop: it is made and the rest follows, or the loop is left.
  pub for_each-cons :
      (P : S → Type 0) (x : X) (xs : List X) (s : S)
      → P (for_each xs (body x s))
      → P s
      → P (for_each (x ∷ xs) s)
  unfolding for_each
  for_each-cons P x xs s h k = elim (Bool-cases (out s).is_open) [ inl e ↦ rw e h | inr e ↦ rw e k ]
