-- ===== src/Pipeline/Arrival.antt =====
-- The way of an alert through the whole program: a monitor sends it, the dispatcher numbers and
-- broadcasts it, a session streams it, and the client's thread hands it to the window and to the desktop.
use mathlib.Core.Path.{subst}
use mathlib.Core.List.{map-append}
use owl_sentry.Base.{
  ◌⊎◌, ℕ, suc, ◌+◌, ◌≤◌, ◌<◌, ◌≡◌, refl, sym, ap, ◌∙◌, ◌≢◌, inl, inr, Bool, true, Option, none,
  List, [], ◌∷◌, ◌++◌, append-nil, arith, u64_mod, next_u64, length, length-append, drop, In,
  In-append_right, All, nat_eq, list_eq, pair_eq,
}
use owl_sentry.Text.{Text}
use owl_sentry.Alert.Types.{severity_ge, high, DateTime, Alert}
use owl_sentry.I18n.{Lang}
use owl_sentry.Ipc.{DaemonMessage}
use owl_sentry.Server.{Decoded, failed}
use owl_sentry.Server.Stream.{streamed}
use owl_sentry.Server.Progress.{waiting}
use owl_sentry.Dispatcher.Ids.{alerts, numbered}
use owl_sentry.Daemon.{started, Client, Daemon, Reach}
use owl_sentry.Daemon.Agreement.{clients_complete}
use owl_sentry.Gui.Client.{urgency_of, on_message, read_lines, GuiEvent, Effect, notify}
use owl_sentry.Gui.App.{max_alerts_in_memory, new_app}
use owl_sentry.Gui.Retained.{places, Answered, drain_events-Holds}
use owl_sentry.Pipeline.Window.{
  IsReadable, lines_of, event_of, all_events, window_of, window_of_lem,
}

-- What stands close enough to the end of a list stands in the part that ends it.
In-end :
    {A : Type 0} (xs ys es ss : List A) (a : A)
    → xs ++ (a ∷ ys) ≡ es ++ ss
    → length ys < length ss
    → In a ss
In-end xs ys [] ss a h l = subst (In a) h (In-append_right a xs (a ∷ ys) (inl refl))
In-end [] ys (e ∷ es) ss a h l = absurd (omega (arith, ap length h, length-append es ss))
In-end (x ∷ xs) ys (e ∷ es) ss a h l = In-end xs ys es ss a (ap (drop 1) h) l

numbered-append :
    (n : ℕ) (xs ys : List (Bool × Alert))
    → n + length xs < u64_mod
    → numbered n (xs ++ ys) ≡ numbered n xs ++ numbered (n + length xs) ys
unfolding numbered
numbered-append n [] ys h = ap (λ k. numbered k ys) (omega arith)
numbered-append n ((fits, a) ∷ xs) ys h =
    let e : next_u64 n ≡ suc n = omega arith in
    ap (λ r. (fits, record a { id = n }) ∷ r)
      (ap (λ k. numbered k (xs ++ ys)) e
        ∙ numbered-append (suc n) xs ys (omega arith)
        ∙ ap (λ k. numbered k xs ++ numbered (suc n + length xs) ys) (sym e)
        ∙ ap (λ k. numbered (next_u64 n) xs ++ numbered k ys) (omega arith))

length-numbered : (n : ℕ) (xs : List (Bool × Alert)) → length (alerts (numbered n xs)) ≡ length xs
unfolding numbered
length-numbered n [] = refl
length-numbered n ((fits, a) ∷ xs) = ap suc (length-numbered (next_u64 n) xs)

-- A streamed alert is an event for the window,
streamed-all_events :
    (a : Alert) (sent : List DaemonMessage)
    → In a (streamed sent)
    → In (GuiEvent.alert a) (all_events sent)
unfolding streamed all_events event_of
streamed-all_events a [] m = absurd m
streamed-all_events a (DaemonMessage.alert b ∷ sent) (inl e) = inl (ap GuiEvent.alert e)
streamed-all_events a (DaemonMessage.alert b ∷ sent) (inr m) = inr (streamed-all_events a sent m)
streamed-all_events a (DaemonMessage.pong ∷ sent) m = streamed-all_events a sent m
streamed-all_events a (DaemonMessage.stats s ∷ sent) m = streamed-all_events a sent m
streamed-all_events a (DaemonMessage.error s ∷ sent) m = streamed-all_events a sent m
streamed-all_events a (DaemonMessage.hello v p l ∷ sent) m = inr (streamed-all_events a sent m)
streamed-all_events a (DaemonMessage.recent log ∷ sent) m = inr (streamed-all_events a sent m)

module _ (encode : DaemonMessage → Text) (read_message : Text → Option DaemonMessage) where
  -- What a later line does, the thread does,
  read_lines-later :
      (x : Effect) (m : DaemonMessage) (sent : List DaemonMessage)
      → IsReadable encode read_message m
      → In x (read_lines read_message (lines_of encode true sent))
      → In x (read_lines read_message (lines_of encode true (m ∷ sent)))
  unfolding read_lines
  read_lines-later x m sent c k =
      rw (c.is_full) (In-append_right x (on_message true (read_message (encode m))) _ (inr k))

  -- and so does the line of a severe alert: it notifies.
  read_lines-notify :
      (a : Alert) (sent : List DaemonMessage)
      → IsReadable encode read_message (DaemonMessage.alert a)
      → severity_ge a.severity high ≡ true
      → In
          (notify a (urgency_of a))
          (read_lines read_message (lines_of encode true (DaemonMessage.alert a ∷ sent)))
  unfolding read_lines on_message
  read_lines-notify a sent c s = rw (c.is_full, c.reads_back, s) (inl refl)

  streamed-notify :
      (a : Alert) (sent : List DaemonMessage)
      → All (IsReadable encode read_message) sent
      → severity_ge a.severity high ≡ true
      → In a (streamed sent)
      → In (notify a (urgency_of a)) (read_lines read_message (lines_of encode true sent))
  unfolding streamed
  streamed-notify a [] c s m = absurd m
  streamed-notify a (DaemonMessage.alert b ∷ sent) c s (inl e) =
      subst
        (λ x.
          In (notify a (urgency_of a))
            (read_lines read_message (lines_of encode true (DaemonMessage.alert x ∷ sent))))
        e (read_lines-notify a sent (rw e c.0) s)
  streamed-notify a (DaemonMessage.alert b ∷ sent) c s (inr m) =
      read_lines-later _ _ sent c.0 (streamed-notify a sent c.1 s m)
  streamed-notify a (DaemonMessage.pong ∷ sent) c s m =
      read_lines-later _ _ sent c.0 (streamed-notify a sent c.1 s m)
  streamed-notify a (DaemonMessage.stats x ∷ sent) c s m =
      read_lines-later _ _ sent c.0 (streamed-notify a sent c.1 s m)
  streamed-notify a (DaemonMessage.error x ∷ sent) c s m =
      read_lines-later _ _ sent c.0 (streamed-notify a sent c.1 s m)
  streamed-notify a (DaemonMessage.hello v p l ∷ sent) c s m =
      read_lines-later _ _ sent c.0 (streamed-notify a sent c.1 s m)
  streamed-notify a (DaemonMessage.recent log ∷ sent) c s m =
      read_lines-later _ _ sent c.0 (streamed-notify a sent c.1 s m)

module _ (from_timestamp : ℕ → ℕ → Option DateTime) (decode : Text → Decoded)
    (version language : Text) (now : DateTime) (capacity : ℕ) (h : Daemon) (c : Client)
    (reach : Reach from_timestamp decode version language (started now capacity) h)
    (member : In c h.clients) (lossless : c.lossless ≡ true) (writes : c.session.status ≢ failed)
    (read : c.queue ≡ []) (idle : h.pending ≡ none) (few : length h.arrivals < u64_mod)
    (es ls : List (Bool × Alert)) (fits : Bool) (a : Alert)
    (arrives : h.arrivals ≡ es ++ ((fits, a) ∷ ls))
    (after : length ls < length (streamed c.session.sent)) where
  arrival-streamed : In (record a { id = 1 + length es }) (streamed c.session.sent)
  unfolding numbered
  arrival-streamed =
      let (earlier, met, e) =
        clients_complete from_timestamp decode version language now capacity h reach c member
          lossless writes in
      let few' : 1 + length es < u64_mod =
        omega (arith, few, ap length arrives, length-append es ((fits, a) ∷ ls)) in
      let split = numbered-append 1 es ((fits, a) ∷ ls) few' in
      let tidy : (streamed c.session.sent ++ c.queue) ++ waiting h.pending
          ≡ streamed c.session.sent =
        ap (λ q. (streamed c.session.sent ++ q) ++ waiting h.pending) read
        ∙ ap (λ p. (streamed c.session.sent ++ []) ++ waiting p) idle
        ∙ append-nil (streamed c.session.sent ++ [])
        ∙ append-nil (streamed c.session.sent) in
      In-end (alerts (numbered 1 es)) (alerts (numbered (next_u64 (1 + length es)) ls)) earlier
        (streamed c.session.sent) _
        (sym (
            ap (λ l. alerts (numbered 1 l)) arrives
            ∙ ap alerts split
            ∙ map-append _ (numbered 1 es) _)
          ∙ e
          ∙ ap (λ x. earlier ++ x) tidy)
        (omega (arith, after, length-numbered (next_u64 (1 + length es)) ls))

  module _ (encode : DaemonMessage → Text) (read_message : Text → Option DaemonMessage)
      (readable : All (IsReadable encode read_message) c.session.sent) where
    -- The alert that arrived after `es`, and after which fewer alerts arrived than a client has been
    -- streamed, is in the window behind that client's messages, whole and under its number, unless
    -- an answer with recent alerts has put its own alert of that number there; this holds if nothing is
    -- pending, the client's receiver has not lagged and is empty, its session has not failed, its
    -- messages are readable, and the window has room for all that they hold.
    pub arrival-shown :
        (enabled : Bool) (lang : Lang)
        → places (all_events c.session.sent) ≤ max_alerts_in_memory
        → (let shown = (window_of encode read_message enabled lang c.session.sent).alerts in
            (b : Alert) × In b shown
            × (b.id ≡ 1 + length es)
            × ((b ≡ record a { id = 1 + length es }) ⊎ Answered b (all_events c.session.sent)))
    unfolding new_app
    arrival-shown enabled lang room =
        rw (window_of_lem encode read_message enabled lang c.session.sent readable) (
          drain_events-Holds
            (λ b. (b ≡ record a { id = 1 + length es }) ⊎ Answered b (all_events c.session.sent))
            (1 + length es) (record a { id = 1 + length es }) (all_events c.session.sent)
            (new_app lang) (omega (arith, room)) (λ b k. inr k) refl (inl refl)
            (streamed-all_events _ c.session.sent arrival-streamed))

    -- Under the same conditions, but for the room in the window, and with notifications enabled, the
    -- client's thread notifies the desktop of that alert, under its number, if its severity is high
    -- or critical.
    pub arrival-notified :
        severity_ge a.severity high ≡ true
        → (let b = record a { id = 1 + length es } in
            In
              (notify b (urgency_of b))
              (read_lines read_message (lines_of encode true c.session.sent)))
    arrival-notified s =
        streamed-notify encode read_message (record a { id = 1 + length es }) c.session.sent
          readable s arrival-streamed
