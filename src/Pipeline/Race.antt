-- ===== src/Pipeline/Race.antt =====
-- An alert that is recorded before a connection is accepted and broadcast behind it.
use mathlib.Core.Path.{subst}
use owl_sentry.Server
use Prim.Native.Nat.{min}
use owl_sentry.Base.{
  ℕ, zero, suc, ◌-◌, ◌≤◌, ◌<◌, ◌≡◌, refl, inl, Bool, true, false, Option, none, some, List, [], ◌∷◌,
  ◌++◌, arith, ltb, length, length-append, All, count, drop, take_last, length-drop,
  trim_front-eq-take_last, length-trim_front, drop-drop, In, In-append_right, nat_eq, list_eq,
  pair_eq,
}
use owl_sentry.Text.{Text, byte_len, is_empty, trim}
use owl_sentry.Alert.Types.{DateTime, Alert}
use owl_sentry.I18n.{Lang}
use owl_sentry.State.{record_alert, recent_alerts, DaemonState}
use owl_sentry.Ipc.{
  ipc_protocol_version, default_recent_limit, subscribe, get_recent, DaemonMessage,
}
use owl_sentry.Server.{
  max_request_bytes, send, open_session, on_request, on_line, Session, Decoded, request, line,
  received,
}
use owl_sentry.Server.World.{accepted, World, Step, broadcasts, reads, delivers, Reach, here, next}
use owl_sentry.Gui.Client.{GuiEvent, connected}
use owl_sentry.Gui.App.{max_alerts_in_memory, new_app, on_event, drain_events}
use owl_sentry.Gui.Merge.{on_event-recent}
use owl_sentry.Gui.Duplicates.{same_id, recent_then_alert}
use owl_sentry.Pipeline.Window.{window_of, window_of_lem, IsReadable, all_events, event_of}

-- The two requests of the client's thread, as lines that the daemon reads.
pub record AreRequests (decode : Text → Decoded) (subscribe_line recent_line : Text) : Type 0 where
  pub subscribes : decode subscribe_line ≡ request subscribe
  pub asks : decode recent_line ≡ request (get_recent default_recent_limit)
  pub short : byte_len subscribe_line ≤ max_request_bytes
  pub short' : byte_len recent_line ≤ max_request_bytes
  pub full : is_empty (trim subscribe_line) ≡ false
  pub full' : is_empty (trim recent_line) ≡ false

is_short : {m n : ℕ} → m ≤ n → ltb n m ≡ false
is_short h = ground arith

In-drop_append :
    (n : ℕ) (xs : List Alert) (a : Alert) → n ≤ length xs → In a (drop n (xs ++ (a ∷ [])))
In-drop_append zero xs a h = In-append_right a xs (a ∷ []) (inl refl)
In-drop_append (suc n) [] a h = absurd (omega arith)
In-drop_append (suc n) (x ∷ xs) a h = In-drop_append n xs a (omega arith)

count_all : (xs : List Alert) → count (λ a. true) xs ≡ length xs
count_all [] = refl
count_all (x ∷ xs) = omega (arith, count_all xs)

module _ (from_timestamp : ℕ → ℕ → Option DateTime) (decode : Text → Decoded) where
  -- What the client is answered and streamed if the alert is broadcast behind its requests.
  abbrev pub answered : Text → Text → DaemonState → Alert → List DaemonMessage
  answered version language daemon a =
      DaemonMessage.hello version ipc_protocol_version language
      ∷ DaemonMessage.recent (recent_alerts (min default_recent_limit 10000) daemon)
      ∷ DaemonMessage.alert a
      ∷ []

  on_line-subscribe :
      (state : DaemonState) (text other : Text) (s : Session)
      → AreRequests decode text other
      → Server.on_event decode state true (line text) s ≡ record s { subscribed = true }
  unfolding Server.on_event on_line on_request
  on_line-subscribe state text other s c =
      let e : ltb max_request_bytes (byte_len text) ≡ false = is_short c.short in
      rw (e, c.full, c.subscribes) refl

  on_line-recent :
      (state : DaemonState) (other text : Text) (s : Session)
      → AreRequests decode other text
      → Server.on_event decode state true (line text) s ≡ record s {
        sent =
            s.sent
            ++ (DaemonMessage.recent (recent_alerts (min default_recent_limit 10000) state) ∷ []);
      }
  unfolding Server.on_event on_line on_request send
  on_line-recent state other text s c =
      let e : ltb max_request_bytes (byte_len text) ≡ false = is_short c.short' in
      rw (e, c.full', c.asks) refl

  race :
      (version language subscribe_line recent_line : Text) (daemon : DaemonState) (a : Alert)
      → AreRequests decode subscribe_line recent_line
      → (w : World) × Reach from_timestamp decode (accepted version language true daemon (some a)) w
        × (w.session.sent ≡ answered version language daemon a)
  unfolding open_session send Server.on_event
  race version language subscribe_line recent_line daemon a c =
      let log = recent_alerts (min default_recent_limit 10000) daemon in
      let w0 : World = accepted version language true daemon (some a) in
      let w1 : World = record w0 { session = record w0.session { subscribed = true } } in
      let w2 : World = record w1 {
        session = record w1.session { sent = w1.session.sent ++ (DaemonMessage.recent log ∷ []) };
      } in
      let w3 : World = record w2 { pending = none; broadcast = a ∷ []; queue = a ∷ [] } in
      let w4 : World = record w3 {
        queue = [];
        session = Server.on_event decode daemon true (received a) w3.session;
      } in
      let first : Step from_timestamp decode w0 w1 =
        subst (λ s. Step from_timestamp decode w0 (record w0 { session = s }))
          (on_line-subscribe daemon subscribe_line recent_line w0.session c)
          (reads true subscribe_line refl) in
      let second : Step from_timestamp decode w1 w2 =
        subst (λ s. Step from_timestamp decode w1 (record w1 { session = s }))
          (on_line-recent daemon subscribe_line recent_line w1.session c)
          (reads true recent_line refl) in
      let third : Step from_timestamp decode w2 w3 = broadcasts a refl in
      let fourth : Step from_timestamp decode w3 w4 = delivers true a [] refl refl refl in
      (w4, next (next (next (next here first) second) third) fourth, refl)

  -- The last alert recorded is among the recent ones.
  In-recent_alerts :
      (n : ℕ) (a : Alert) (s : DaemonState)
      → 1 ≤ n
      → 1 ≤ s.recent_capacity
      → In a (recent_alerts n (record_alert from_timestamp a s))
  unfolding recent_alerts record_alert
  In-recent_alerts n a s h k =
      let all = s.recent ++ (a ∷ []) in
      let cap = s.recent_capacity in
      let e = trim_front-eq-take_last cap all in
      let l = length-append s.recent (a ∷ []) in
      let kept = length-trim_front cap all in
      rw
        (
          e,
          drop-drop (length (take_last cap all) - min n (length (take_last cap all)))
              (length all - cap) all,
        )
        (In-drop_append _ s.recent a (omega (arith, length-drop (length all - cap) all)))

  -- A new window has room for an answer.
  has_room :
      (language : Text) (lang : Lang) (s : DaemonState)
      → length
          (on_event
            (GuiEvent.recent (recent_alerts (min default_recent_limit 10000) s))
            (on_event (connected language) (new_app lang))).alerts
        < max_alerts_in_memory
  unfolding recent_alerts on_event new_app
  has_room language lang s =
      let greeted = on_event (connected language) (new_app lang) in
      let log = recent_alerts (min default_recent_limit 10000) s in
      let shown = (on_event (GuiEvent.recent log) greeted).alerts in
      let few : length log ≤ 500 = omega (
        arith,
        length-drop (length s.recent - min (min default_recent_limit 10000) (length s.recent))
            s.recent,
      ) in
      let counted = (on_event-recent log greeted (λ a. true)).1 in
      omega (arith, few, counted, count_all shown, count_all log)

  -- A client's connection can be accepted between the record and the broadcast of an alert. Then, if
  -- its two lines are the requests of the client's thread and the answers are read back, there are
  -- steps of the session and the dispatcher behind which its window, when it has read what was
  -- sent, holds at least two alerts with this number: the alert was in the answer with the recent
  -- alerts, and was streamed as well.
  pub window_shows_twice :
      (encode : DaemonMessage → Text) (read_message : Text → Option DaemonMessage) (enabled : Bool)
      (lang : Lang) (version language subscribe_line recent_line : Text) (before : DaemonState)
      (a : Alert)
      → All
          (IsReadable encode read_message)
          (answered version language (record_alert from_timestamp a before) a)
      → AreRequests decode subscribe_line recent_line
      → 1 ≤ before.recent_capacity
      → (w : World) × Reach from_timestamp decode
          (accepted version language true (record_alert from_timestamp a before) (some a))
          w
        × (2 ≤ count (same_id a) (window_of encode read_message enabled lang w.session.sent).alerts)
  unfolding all_events event_of drain_events on_event new_app
  window_shows_twice encode read_message enabled lang version language subscribe_line recent_line
        before a r c h =
      let daemon = record_alert from_timestamp a before in
      let log = recent_alerts (min default_recent_limit 10000) daemon in
      let (w, reach, sent) = race version language subscribe_line recent_line daemon a c in
      let greeted = on_event (connected language) (new_app lang) in
      let m = In-recent_alerts (min default_recent_limit 10000) a before (omega arith) h in
      let twice = recent_then_alert log a greeted m (has_room language lang daemon) in
      (w, reach, rw (sent, window_of_lem encode read_message enabled lang _ r) twice)
