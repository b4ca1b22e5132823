-- ===== src/Server/Replies.antt =====
-- What a session answers.
use Prim.Native.Nat.{min, max}
use owl_sentry.Base.{
  ℕ, ◌≤◌, ◌≡◌, refl, ◌⊎◌, inl, inr, Bool, true, false, Option, List, [], ◌∷◌, ◌++◌, arith, ltb,
  Bool-cases, take_last, nat_eq, list_eq, pair_eq,
}
use owl_sentry.Text.{Text, byte_len, is_empty, trim}
use owl_sentry.Alert.Types.{DateTime, Alert}
use owl_sentry.State.{new_state, DaemonState}
use owl_sentry.State.Windows.{record_all, recent_alerts-record_all}
use owl_sentry.Ipc.{subscribe, get_recent, get_stats, ping, DaemonMessage}
use owl_sentry.Server.{
  max_request_bytes, send, on_request, on_line, on_event, Session, Decoded, request, invalid, Event,
  line, received,
}

-- The messages after a step: those before it, and at most one more, which was written.
abbrev pub SendsAtMostOne : Bool → Session → Session → Type 0
SendsAtMostOne ok s t =
    (t.sent ≡ s.sent) ⊎ ((m : DaemonMessage) × (ok ≡ true) × (t.sent ≡ s.sent ++ (m ∷ [])))

send-SendsAtMostOne :
    (ok : Bool) (m : DaemonMessage) (s : Session) → SendsAtMostOne ok s (send ok m s)
unfolding send
send-SendsAtMostOne true m s = inr (m, refl, refl)
send-SendsAtMostOne false m s = inl refl

on_request-SendsAtMostOne :
    (state : DaemonState) (ok : Bool) (d : Decoded) (s : Session)
    → SendsAtMostOne ok s (on_request state ok d s)
unfolding on_request
on_request-SendsAtMostOne state ok (request subscribe) s = inl refl
on_request-SendsAtMostOne state ok (request (get_recent limit)) s = send-SendsAtMostOne ok _ s
on_request-SendsAtMostOne state ok (request get_stats) s = send-SendsAtMostOne ok _ s
on_request-SendsAtMostOne state ok (request ping) s = send-SendsAtMostOne ok _ s
on_request-SendsAtMostOne state ok (invalid e) s = send-SendsAtMostOne ok _ s

on_request-subscribed :
    (state : DaemonState) (ok : Bool) (d : Decoded) (s : Session)
    → s.subscribed ≡ false
    → (on_request state ok d s).subscribed ≡ true
    → d ≡ request subscribe
unfolding on_request
on_request-subscribed state ok (request subscribe) s h t = refl
on_request-subscribed state ok (request (get_recent limit)) s h t = ground arith
on_request-subscribed state ok (request get_stats) s h t = ground arith
on_request-subscribed state ok (request ping) s h t = ground arith
on_request-subscribed state ok (invalid e) s h t = ground arith

module _ (decode : Text → Decoded) where
  -- An event makes a session send at most one message, and only if the write succeeds; what was
  -- sent before stays in front of it.
  pub on_event-SendsAtMostOne :
      (state : DaemonState) (ok : Bool) (e : Event) (s : Session)
      → SendsAtMostOne ok s (on_event decode state ok e s)
  unfolding on_event on_line
  on_event-SendsAtMostOne state ok (line text) s =
      elim (Bool-cases (ltb max_request_bytes (byte_len text))) [
        | inl long ↦ rw long (send-SendsAtMostOne ok _ s)
        | inr short ↦ elim (Bool-cases (is_empty (trim text))) [
          | inl blank ↦ rw (short, blank) (inl refl)
          | inr full ↦ rw (short, full) (on_request-SendsAtMostOne state ok (decode text) s)
        ]
      ]
  on_event-SendsAtMostOne state ok (received a) s = send-SendsAtMostOne ok _ s
  on_event-SendsAtMostOne state ok _ s = inl refl

  -- A session that has not subscribed becomes subscribed only by a line of at most 4096 bytes that
  -- decodes to `subscribe`.
  pub subscribes-only :
      (state : DaemonState) (ok : Bool) (e : Event) (s : Session)
      → s.subscribed ≡ false
      → (on_event decode state ok e s).subscribed ≡ true
      → (text : Text) × (e ≡ line text)
        × (decode text ≡ request subscribe)
        × (byte_len text ≤ max_request_bytes)
  unfolding on_event on_line send
  subscribes-only state ok (line text) s h t =
      elim (Bool-cases (ltb max_request_bytes (byte_len text))) [
        | inl long ↦ absurd (ground arith)
        | inr short ↦ elim (Bool-cases (is_empty (trim text))) [
          | inl blank ↦ absurd (ground arith)
          | inr full ↦ (
            text,
            refl,
            on_request-subscribed state ok (decode text) s h (rw (short, full) at t),
            ground arith,
          )
        ]
      ]
  subscribes-only state ok (received a) s h t = absurd (ground arith)
  subscribes-only state ok _ s h t = absurd (ground arith)

  -- A line that decodes to a request for `limit` alerts is answered by the last alerts recorded, in
  -- their order: at most `limit`, at most 10000 and at most the daemon's capacity of them.
  pub on_line-get_recent :
      (from_timestamp : ℕ → ℕ → Option DateTime) (now : DateTime) (capacity limit : ℕ)
      (log : List Alert) (text : Text) (s : Session)
      → byte_len text ≤ max_request_bytes
      → is_empty (trim text) ≡ false
      → decode text ≡ request (get_recent limit)
      → (on_line decode (record_all from_timestamp log (new_state now capacity)) true text s).sent
        ≡ s.sent
          ++ (DaemonMessage.recent (take_last (min (min limit 10000) (max capacity 1)) log) ∷ [])
  unfolding on_line
  on_line-get_recent from_timestamp now capacity limit log text s short full d =
      let e : ltb max_request_bytes (byte_len text) ≡ false = ground arith in
      rw (e, full, d, recent_alerts-record_all from_timestamp now capacity (min limit 10000) log)
        refl
