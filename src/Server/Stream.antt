-- ===== src/Server/Stream.antt =====
-- The stream of alerts among the messages of a session, and the requests that leave it alone.
use owl_sentry.Base.{
  ◌≡◌, refl, ap, ◌∙◌, inl, inr, Bool, true, false, List, [], ◌∷◌, ◌++◌, append-nil, ltb, Bool-cases,
  nat_eq, list_eq, pair_eq,
}
use owl_sentry.Text.{Text, byte_len, is_empty, trim}
use owl_sentry.Alert.Types.{Alert}
use owl_sentry.State.{DaemonState}
use owl_sentry.Ipc.{subscribe, get_recent, get_stats, ping, DaemonMessage}
use owl_sentry.Server.{
  max_request_bytes, send, on_request, on_line, Session, Decoded, request, invalid,
}

-- The alerts of the stream among the messages sent; those inside an answer do not count.
unfoldable pub streamed : List DaemonMessage → List Alert
streamed [] = []
streamed (DaemonMessage.alert a ∷ ms) = a ∷ streamed ms
streamed (_ ∷ ms) = streamed ms

-- No message that answers a request is an alert of the stream.
abbrev pub IsAnswer : DaemonMessage → Type 0
IsAnswer (DaemonMessage.alert a) = ⊥
IsAnswer _ = Unit

pub streamed-append :
    (xs ys : List DaemonMessage) → streamed (xs ++ ys) ≡ streamed xs ++ streamed ys
unfolding streamed
streamed-append [] ys = refl
streamed-append (DaemonMessage.alert a ∷ xs) ys = ap (◌∷◌ a) (streamed-append xs ys)
streamed-append (DaemonMessage.pong ∷ xs) ys = streamed-append xs ys
streamed-append (_ ∷ xs) ys = streamed-append xs ys

-- A step of the session that adds nothing to the stream and takes no subscription back.
pub record Quiet (s t : Session) : Type 0 where
  pub same : streamed t.sent ≡ streamed s.sent
  pub stays : s.subscribed ≡ true → t.subscribed ≡ true

send-Quiet :
    (ok : Bool) (m : DaemonMessage) (s : Session) → streamed (m ∷ []) ≡ [] → Quiet s (send ok m s)
unfolding send
send-Quiet true m s e = record {
  same = streamed-append s.sent (m ∷ []) ∙ rw (e, append-nil) refl;
  stays = λ h. h;
}
send-Quiet false m s e = record { same = refl; stays = λ h. h }

on_request-Quiet :
    (state : DaemonState) (ok : Bool) (d : Decoded) (s : Session)
    → Quiet s (on_request state ok d s)
unfolding on_request streamed
on_request-Quiet state ok (request subscribe) s = record { same = refl; stays = λ h. refl }
on_request-Quiet state ok (request (get_recent limit)) s = send-Quiet ok _ s refl
on_request-Quiet state ok (request get_stats) s = send-Quiet ok _ s refl
on_request-Quiet state ok (request ping) s = send-Quiet ok _ s refl
on_request-Quiet state ok (invalid e) s = send-Quiet ok _ s refl

pub on_line-Quiet :
    (decode : Text → Decoded) (state : DaemonState) (ok : Bool) (text : Text) (s : Session)
    → Quiet s (on_line decode state ok text s)
unfolding on_line streamed
on_line-Quiet decode state ok text s = elim (Bool-cases (ltb max_request_bytes (byte_len text))) [
  | inl long ↦ rw long (send-Quiet ok _ s refl)
  | inr short ↦ elim (Bool-cases (is_empty (trim text))) [
    | inl blank ↦ rw (short, blank) (record { same = refl; stays = λ h. h })
    | inr full ↦ rw (short, full) (on_request-Quiet state ok (decode text) s)
  ]
]
