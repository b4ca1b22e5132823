-- ===== src/Daemon/Sessions.antt =====
-- The daemon beside its parts: what the dispatcher does with what arrives
-- (crates/owlsentry-daemon/src/dispatcher.rs, `run`), and what each client's session sees of it
-- (crates/owlsentry-daemon/src/ipc_server.rs).
use owl_sentry.State.Windows.{record_all}
use owl_sentry.State.{new_state}
use mathlib.Core.Path.{subst}
use owl_sentry.Base.{
  length, ◌<◌, suc, u64_mod, ℕ, ◌≡◌, refl, sym, ap, ◌∙◌, Bool, Option, none, some, List, [], ◌∷◌,
  ◌++◌, append_assoc, append-nil, All, All-append, All-In, In, nat_eq, list_eq, pair_eq,
}
use owl_sentry.Text.{Text}
use owl_sentry.Alert.Types.{DateTime, Alert}
use owl_sentry.Server.{Decoded}
use owl_sentry.Server.World
use owl_sentry.Server.World.{accepted, World}
use owl_sentry.Server.Delivery.{Reach-Inv, Inv}
use owl_sentry.Server.Progress.{waiting}
use owl_sentry.Dispatcher.{dispatch, run, start, Dispatcher}
use owl_sentry.Dispatcher.Ids.{written, next_id-start, alerts, numbered, run-start}
use owl_sentry.Daemon.{
  hear, begin, view, started, Client, Daemon, Step, receives, broadcasts, accepts, serves, Reach,
  here, next,
}
use owl_sentry.Daemon.Serving.{
  All-map_to, All-change, All-replace, Served, receives-Served, broadcasts-Served, serves-Served,
}

-- The dispatcher with what is pending broadcast
abbrev pub flushed : Daemon → Dispatcher
flushed h = record h.dispatcher { broadcast = h.dispatcher.broadcast ++ waiting h.pending }

module _ (from_timestamp : ℕ → ℕ → Option DateTime) (decode : Text → Decoded)
    (version language : Text) where
  run-append :
      (batch : List (Bool × Alert)) (fits : Bool) (a : Alert) (d : Dispatcher)
      → run from_timestamp (batch ++ ((fits, a) ∷ [])) d
        ≡ dispatch from_timestamp fits a (run from_timestamp batch d)
  unfolding run
  run-append [] fits a d = refl
  run-append ((f, b) ∷ batch) fits a d = run-append batch fits a (dispatch from_timestamp f b d)

  -- The dispatcher has done with what arrived what it does with it alone, and every client is served.
  pub record IsSettled (d0 : Dispatcher) (h : Daemon) : Type 0 where
    pub settled : flushed h ≡ run from_timestamp h.arrivals d0
    pub served :
        All (Served from_timestamp decode version language h.dispatcher h.pending) h.clients

  receives-settled :
      (d0 : Dispatcher) (h : Daemon) (fits : Bool) (received : Alert)
      → h.pending ≡ none
      → flushed h ≡ run from_timestamp h.arrivals d0
      → record (begin from_timestamp fits received h.dispatcher) {
        broadcast = h.dispatcher.broadcast ++ (record received { id = h.dispatcher.next_id } ∷ []);
      }
        ≡ run from_timestamp (h.arrivals ++ ((fits, received) ∷ [])) d0
  unfolding dispatch
  receives-settled d0 h fits received p e =
      let now : flushed h ≡ h.dispatcher =
        ap (λ q. record h.dispatcher { broadcast = h.dispatcher.broadcast ++ waiting q }) p
        ∙ ap (λ b. record h.dispatcher { broadcast = b }) (append-nil h.dispatcher.broadcast) in
      ap (dispatch from_timestamp fits received) (sym now ∙ e)
      ∙ sym (run-append h.arrivals fits received d0)

  broadcasts-settled :
      (d0 : Dispatcher) (h : Daemon) (a : Alert)
      → h.pending ≡ some a
      → flushed h ≡ run from_timestamp h.arrivals d0
      → record h.dispatcher { broadcast = (h.dispatcher.broadcast ++ (a ∷ [])) ++ [] }
        ≡ run from_timestamp h.arrivals d0
  broadcasts-settled d0 h a p e =
      ap (λ b. record h.dispatcher { broadcast = b })
        (append-nil (h.dispatcher.broadcast ++ (a ∷ [])))
      ∙ ap (λ q. record h.dispatcher { broadcast = h.dispatcher.broadcast ++ waiting q }) (sym p)
      ∙ e

  Step-IsSettled :
      {d0 : Dispatcher} {h k : Daemon}
      → Step from_timestamp decode version language h k
      → IsSettled d0 h
      → IsSettled d0 k
  Step-IsSettled {d0} {h} (receives fits received p) v = record {
    settled = receives-settled d0 h fits received p v.settled;
    served =
        All-change _ _
          (λ c. receives-Served from_timestamp decode version language h fits received c p)
          h.clients v.served;
  }
  Step-IsSettled {d0} {h} (broadcasts a p) v = record {
    settled = broadcasts-settled d0 h a p v.settled;
    served =
        All-map_to _ _ (hear a)
          (λ c. broadcasts-Served from_timestamp decode version language h a c p) h.clients
          v.served;
  }
  Step-IsSettled {d0} {h} (accepts greeted) v = record {
    settled = v.settled;
    served = All-append _ h.clients _ v.served (
      record {
        alone = (greeted, h.dispatcher, h.pending, World.Reach.here);
        since = (h.dispatcher.broadcast, refl, sym (append-nil _));
      },
      tt,
    );
  }
  Step-IsSettled {d0} {h} (serves before after c d e same old st) v = record {
    settled = v.settled;
    served =
        All-replace _ before c d after
          (serves-Served from_timestamp decode version language h c d same old st)
          (subst (All _) e v.served);
  }

  started-IsSettled :
      (now : DateTime) (capacity : ℕ) → IsSettled (start now capacity) (started now capacity)
  unfolding run start
  started-IsSettled now capacity = record { settled = refl; served = tt }

  pub Reach-IsSettled :
      (now : DateTime) (capacity : ℕ) {h : Daemon}
      → Reach from_timestamp decode version language (started now capacity) h
      → IsSettled (start now capacity) h
  Reach-IsSettled now capacity here = started-IsSettled now capacity
  Reach-IsSettled now capacity (next r st) = Step-IsSettled st (Reach-IsSettled now capacity r)

  -- Once what is pending is broadcast, the daemon is the dispatcher that has run alone over all that
  -- arrived.
  pub flushed-run :
      (now : DateTime) (capacity : ℕ) (h : Daemon)
      → Reach from_timestamp decode version language (started now capacity) h
      → flushed h ≡ run from_timestamp h.arrivals (start now capacity)
  flushed-run now capacity h r = (Reach-IsSettled now capacity r).settled

  -- In every interleaving of the dispatcher with any number of sessions, from the start on: what was
  -- broadcast, with what is pending behind it, is all that has arrived, in its order and numbered
  -- from 1; the state has recorded just these alerts, so the pending one too; the journal holds those
  -- of them whose line could be written; and the next number is behind theirs, if fewer than 2^64 - 1
  -- alerts have arrived.
  pub daemon-arrivals :
      (now : DateTime) (capacity : ℕ) (h : Daemon)
      → Reach from_timestamp decode version language (started now capacity) h
      → suc (length h.arrivals) < u64_mod
      → (h.dispatcher.broadcast ++ waiting h.pending ≡ alerts (numbered 1 h.arrivals))
        × (h.dispatcher.state
            ≡ record_all from_timestamp (alerts (numbered 1 h.arrivals)) (new_state now capacity))
        × (h.dispatcher.writer.lines ≡ written (numbered 1 h.arrivals))
        × (h.dispatcher.next_id ≡ suc (length h.arrivals))
  daemon-arrivals now capacity h r few =
      let e = flushed-run now capacity h r in
      let k = run-start from_timestamp now capacity h.arrivals in
      (
        ap (λ d. d.broadcast) e ∙ k.0,
        ap (λ d. d.state) e ∙ k.1,
        ap (λ d. d.writer.lines) e ∙ k.2,
        ap (λ d. d.next_id) e ∙ next_id-start from_timestamp now capacity h.arrivals few,
      )

  -- What a client has heard ends what arrived, numbered from 1, up to what is pending.
  pub heard-arrivals :
      (now : DateTime) (capacity : ℕ) (h : Daemon) (c : Client)
      → Reach from_timestamp decode version language (started now capacity) h
      → In c h.clients
      → (earlier : List Alert) × (length earlier ≡ c.joined)
        × (alerts (numbered 1 h.arrivals) ≡ earlier ++ (c.heard ++ waiting h.pending))
  heard-arrivals now capacity h c r m =
      let v = Reach-IsSettled now capacity r in
      let s = All-In _ c h.clients v.served m in
      let (earlier, met, told) = s.since in
      (
        earlier,
        met,
        sym ((run-start from_timestamp now capacity h.arrivals).0)
            ∙ sym (ap (λ d. d.broadcast) v.settled)
            ∙ ap (λ b. b ++ waiting h.pending) told
            ∙ append_assoc earlier c.heard (waiting h.pending),
      )

  -- What holds of one session beside the dispatcher holds of every client.
  pub client-Inv :
      (now : DateTime) (capacity : ℕ) (h : Daemon) (c : Client)
      → Reach from_timestamp decode version language (started now capacity) h
      → In c h.clients
      → Inv (view h.dispatcher h.pending c)
  client-Inv now capacity h c r m =
      let s = All-In _ c h.clients ((Reach-IsSettled now capacity r).served) m in
      let (greeted, then, about, alone) = s.alone in
      Reach-Inv from_timestamp decode version language greeted then.state about alone

  pub heard-broadcast :
      (now : DateTime) (capacity : ℕ) (h : Daemon) (c : Client)
      → Reach from_timestamp decode version language (started now capacity) h
      → In c h.clients
      → (earlier : List Alert) × (h.dispatcher.broadcast ≡ earlier ++ c.heard)
  heard-broadcast now capacity h c r m =
      let s = All-In _ c h.clients ((Reach-IsSettled now capacity r).served) m in
      let (earlier, met, told) = s.since in (earlier, told)
