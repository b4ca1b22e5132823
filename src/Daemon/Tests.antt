-- ===== src/Daemon/Tests.antt =====
-- The daemon with two clients, of which one connects later.
use owl_sentry.Base.{
  length, ◌≡◌, refl, ◌⊎◌, inl, inr, true, false, some, List, [], ◌∷◌, ◌++◌, arith, nat_eq, list_eq,
  pair_eq,
}
use owl_sentry.Text.{codes, byte_len, trim, is_whitespace}
use owl_sentry.Alert.Types.{Alert, high, network, severity_str, category_str}
use owl_sentry.Server.{on_event, open_session}
use owl_sentry.Server.Stream.{streamed}
use owl_sentry.Dispatcher.{start}
use owl_sentry.Dispatcher.Ids.{numbered, IsAscending}
use owl_sentry.Daemon.Sessions.{daemon-arrivals}
use owl_sentry.State.Windows.{record_all}
use owl_sentry.Daemon.Agreement.{clients_complete, clients_agree, streamed-IsAscending}
use owl_sentry.Daemon.Run.{subscribes, late, a0, a1, c2, d5, d5-Reach}
use owl_sentry.Samples.{utc, at_secs, sample_alert}
use owl_sentry.State.{stats_of, new_state}
use owl_sentry.State.Counts.{counter}
use owl_sentry.Daemon.{begin, started, Daemon, Reach, here, next, receives, broadcasts}
use owl_sentry.Daemon.Order.{counters_agree}
use mathlib.Core.List.{perm_append_comm}

daemon-arrivals_example :
    (a1 ∷ [] ≡ a1 ∷ [])
    × (d5.dispatcher.state ≡ record_all utc (a1 ∷ []) (new_state (at_secs 0) 10))
    × (d5.dispatcher.writer.lines ≡ a1 ∷ [])
    × (d5.dispatcher.next_id ≡ 2)
unfolding numbered
daemon-arrivals_example =
    daemon-arrivals utc subscribes (codes "0.1.0") (codes "fr") (at_secs 0) 10 d5 d5-Reach
      (omega arith)

clients_complete_example :
    (earlier : List Alert) × (length earlier ≡ 0) × (a1 ∷ [] ≡ earlier ++ (((a1 ∷ []) ++ []) ++ []))
unfolding numbered streamed open_session on_event byte_len trim is_whitespace
clients_complete_example =
    clients_complete utc subscribes (codes "0.1.0") (codes "fr") (at_secs 0) 10 d5 d5-Reach c2
      (inl refl) refl (λ e. absurd (cc e))

clients_agree_example :
    ((more : List Alert) × (a1 ∷ [] ≡ more ++ []))
    ⊎ ((more : List Alert) × ([] ≡ more ++ (a1 ∷ [])))
unfolding streamed open_session on_event byte_len trim is_whitespace
clients_agree_example =
    clients_agree utc subscribes (codes "0.1.0") (codes "fr") (at_secs 0) 10 d5 d5-Reach c2 late
      (inl refl) (inr (inl refl)) refl refl (λ e. absurd (cc e)) (λ e. absurd (cc e)) refl refl

streamed-IsAscending_example : IsAscending 1 (a1 ∷ [])
unfolding streamed open_session on_event byte_len trim is_whitespace
streamed-IsAscending_example =
    streamed-IsAscending utc subscribes (codes "0.1.0") (codes "fr") (at_secs 0) 10 d5 d5-Reach c2
      (inl refl) (omega arith)

-- A daemon at which the alert of the removed file, and then another, have arrived, and one at which
-- they have arrived in the other order.
abbrev other : Alert
other = sample_alert 0 9 high network

abbrev in_order : Daemon
in_order = record (started (at_secs 0) 10) {
  dispatcher =
      let d = begin utc true a0 (start (at_secs 0) 10) in
      begin utc true other (record d { broadcast = a1 ∷ [] });
  pending = some (record other { id = 2 });
  arrivals = (true, a0) ∷ (true, other) ∷ [];
}

in_order-Reach : Reach utc subscribes (codes "0.1.0") (codes "fr") (started (at_secs 0) 10) in_order
unfolding start
in_order-Reach =
    next (next (next here (receives true a0 refl)) (broadcasts a1 refl)) (receives true other refl)

abbrev turned_round : Daemon
turned_round = record (started (at_secs 5) 7) {
  dispatcher =
      let d = begin utc true other (start (at_secs 5) 7) in
      begin utc false a0 (record d { broadcast = record other { id = 1 } ∷ [] });
  pending = some (record a0 { id = 2 });
  arrivals = (true, other) ∷ (false, a0) ∷ [];
}

turned_round-Reach :
    Reach utc subscribes (codes "0.1.0") (codes "fr") (started (at_secs 5) 7) turned_round
unfolding start
turned_round-Reach =
    next (next (next here (receives true other refl)) (broadcasts (record other { id = 1 }) refl))
      (receives false a0 refl)

counters_agree_example :
    let st = stats_of in_order.dispatcher.state in
    let st' = stats_of turned_round.dispatcher.state in
    (st.total ≡ st'.total)
    × (counter (codes "high") st.by_severity ≡ counter (codes "high") st'.by_severity)
    × (counter (codes "network") st.by_category ≡ counter (codes "network") st'.by_category)
unfolding severity_str category_str
counters_agree_example =
    counters_agree utc subscribes (codes "0.1.0") (codes "fr") (at_secs 0) (at_secs 5) 10 7 in_order
      turned_round in_order-Reach turned_round-Reach (perm_append_comm (a0 ∷ []) (other ∷ [])) high
      network
