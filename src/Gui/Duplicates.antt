-- ===== src/Gui/Duplicates.antt =====
-- An alert that a client is answered with and streamed as well.
use owl_sentry.Gui.Merge.{on_event-recent}
use owl_sentry.Base.{
  ◌≤◌, ◌<◌, ◌≡◌, inl, inr, Bool, false, List, [], ◌∷◌, ◌++◌, arith, ltb, length, length-append,
  count, count-append, In, nat_eq, ◌==◌, list_eq, pair_eq, eq_refl,
}
use owl_sentry.Alert.Types.{Alert}
use owl_sentry.Gui.Client.{alert, recent}
use owl_sentry.Gui.App.{max_alerts_in_memory, on_event, drain_events, App}

abbrev pub same_id : Alert → Alert → Bool
same_id a b = b.id == a.id

In-count : (a : Alert) (log : List Alert) → In a log → 1 ≤ count (same_id a) log
In-count a [] m = absurd m
In-count a (b ∷ log) (inl e) = rw (← e, eq_refl a.id) (omega arith)
In-count a (b ∷ log) (inr m) = ground (arith, In-count a log m)

one_here : (a : Alert) → count (same_id a) (a ∷ []) ≡ 1
one_here a = rw (eq_refl a.id)

-- An alert of the recent ones that is streamed afterwards stands twice in the window, if there is
-- room for it: the branch for a new alert does not look for its number.
pub recent_then_alert :
    (log : List Alert) (a : Alert) (app : App)
    → In a log
    → length (on_event (recent log) app).alerts < max_alerts_in_memory
    → 2 ≤ count (same_id a) (drain_events (recent log ∷ alert a ∷ []) app).alerts
unfolding drain_events on_event
recent_then_alert log a app m room =
    let shown = (on_event (recent log) app).alerts in
    let more = length-append shown (a ∷ []) in
    let fits : ltb max_alerts_in_memory (length (shown ++ (a ∷ []))) ≡ false = ground arith in
    rw fits (
      omega (
        arith,
        count-append (same_id a) shown (a ∷ []),
        (on_event-recent log app (same_id a)).1,
        In-count a log m,
        one_here a,
      ))
