-- ===== src/Server/Delivery.antt =====
-- The order in which a client sees the alerts, whatever the interleaving with the dispatcher.
use mathlib.Core.Bool.{false≢true}
use owl_sentry.Base.{
  ℕ, ◌≡◌, refl, sym, ap, ◌∙◌, ◌≢◌, inl, inr, Bool, true, false, Option, none, List, [], ◌∷◌, ◌++◌,
  append_assoc, Bool-cases, drop, nat_eq, list_eq, pair_eq, Subseq-refl, Subseq-trans,
  Subseq-append_left, Subseq-append_right, Subseq-drop, Subseq, stop, skip,
}
use owl_sentry.Text.{Text}
use owl_sentry.Alert.Types.{DateTime, Alert}
use owl_sentry.State.{DaemonState}
use owl_sentry.Ipc.{DaemonMessage}
use owl_sentry.Server.{
  open_session, on_line, on_event, Session, Decoded, line, received, lagged, running, failed,
}
use owl_sentry.Server.World.{
  accepted, World, Step, records, broadcasts, reads, hangs_up, breaks, delivers, lags, Reach, here,
  next,
}
use owl_sentry.Server.Stream.{streamed, streamed-append, on_line-Quiet}

running≢failed : running ≢ failed
running≢failed e = cc

still_false :
    (s t : Session)
    → t.subscribed ≡ false
    → (s.subscribed ≡ true → t.subscribed ≡ true)
    → s.subscribed ≡ false
still_false s t h k = elim (Bool-cases s.subscribed) [
  | inl e ↦ absurd (false≢true (sym h ∙ k e))
  | inr e ↦ e
]

-- What holds of a session at any moment.
pub record Inv (w : World) : Type 0 where
  -- The alerts streamed, and then those queued, are some of those broadcast, in their order.
  pub ordered : Subseq (streamed w.session.sent ++ w.queue) w.broadcast
  -- They are all of them, if none was lost and no write failed.
  pub whole :
      w.lossless ≡ true
      → w.session.status ≢ failed
      → streamed w.session.sent ++ w.queue ≡ w.broadcast
  -- A client that has not subscribed has been streamed nothing.
  pub silent : w.session.subscribed ≡ false → streamed w.session.sent ≡ []

module _ (from_timestamp : ℕ → ℕ → Option DateTime) (decode : Text → Decoded) where
  reads-Inv :
      {w : World} (ok : Bool) (text : Text)
      → w.session.status ≡ running
      → Inv w
      → Inv (record w { session = on_event decode w.daemon ok (line text) w.session })
  unfolding on_event
  reads-Inv {w} ok text r v =
      let q = on_line-Quiet decode w.daemon ok text w.session in
      record {
        ordered = rw q.same v.ordered;
        whole = λ l f. rw q.same (v.whole l (λ e. running≢failed (sym r ∙ e)));
        silent = λ h.
            q.same
            ∙ v.silent
                (still_false w.session (on_line decode w.daemon ok text w.session) h q.stays);
      }

  delivers-Inv :
      {w : World} (ok : Bool) (a : Alert) (rest : List Alert)
      → w.session.status ≡ running
      → w.session.subscribed ≡ true
      → w.queue ≡ a ∷ rest
      → Inv w
      → Inv
          (record w { queue = rest; session = on_event decode w.daemon ok (received a) w.session })
  unfolding on_event streamed
  delivers-Inv {w} true a rest r t e v =
      let shift : (streamed (w.session.sent ++ (DaemonMessage.alert a ∷ [])) ++ rest)
          ≡ streamed w.session.sent ++ w.queue =
        rw (streamed-append w.session.sent (DaemonMessage.alert a ∷ []), e)
          (append_assoc (streamed w.session.sent) (a ∷ []) rest) in
      record {
        ordered = rw shift v.ordered;
        whole = λ l f. shift ∙ v.whole l f;
        silent = λ h. absurd (false≢true (sym h ∙ t));
      }
  delivers-Inv {w} false a rest r t e v = record {
    ordered =
        Subseq-trans (Subseq-append_left (streamed w.session.sent) (skip a (Subseq-refl rest)))
          (rw e at v.ordered);
    whole = λ l f. absurd (f refl);
    silent = v.silent;
  }

  broadcasts-Inv :
      {w : World} (a : Alert)
      → Inv w
      → Inv (record w {
        pending = none;
        broadcast = w.broadcast ++ (a ∷ []);
        queue = w.queue ++ (a ∷ []);
      })
  broadcasts-Inv {w} a v =
      let assoc = sym (append_assoc (streamed w.session.sent) w.queue (a ∷ [])) in
      record {
        ordered = rw assoc (Subseq-append_right (a ∷ []) v.ordered);
        whole = λ l f. assoc ∙ ap (λ x. x ++ (a ∷ [])) (v.whole l f);
        silent = v.silent;
      }

  lags-Inv :
      {w : World} (n : ℕ)
      → Inv w
      → Inv (record w {
        queue = drop n w.queue;
        session = on_event decode w.daemon true (lagged n) w.session;
        lossless = false;
      })
  unfolding on_event
  lags-Inv {w} n v = record {
    ordered =
        Subseq-trans (Subseq-append_left (streamed w.session.sent) (Subseq-drop n w.queue))
          v.ordered;
    whole = λ l f. absurd (false≢true l);
    silent = v.silent;
  }

  Step-Inv : {w u : World} → Step from_timestamp decode w u → Inv w → Inv u
  unfolding on_event
  Step-Inv (records a e) v = record { ordered = v.ordered; whole = v.whole; silent = v.silent }
  Step-Inv (broadcasts a e) v = broadcasts-Inv a v
  Step-Inv (reads ok text r) v = reads-Inv ok text r v
  Step-Inv (hangs_up r) v = record {
    ordered = v.ordered;
    whole = λ l f. v.whole l (λ e. running≢failed (sym r ∙ e));
    silent = v.silent;
  }
  Step-Inv (breaks r) v = record {
    ordered = v.ordered;
    whole = λ l f. absurd (f refl);
    silent = v.silent;
  }
  Step-Inv (delivers ok a rest r t e) v = delivers-Inv ok a rest r t e v
  Step-Inv (lags n r t) v = lags-Inv n v

  accepted-Inv :
      (version language : Text) (ok : Bool) (daemon : DaemonState) (pending : Option Alert)
      → Inv (accepted version language ok daemon pending)
  unfolding open_session streamed
  accepted-Inv version language true daemon pending = record {
    ordered = stop;
    whole = λ l f. refl;
    silent = λ h. refl;
  }
  accepted-Inv version language false daemon pending = record {
    ordered = stop;
    whole = λ l f. refl;
    silent = λ h. refl;
  }

  -- In every interleaving of a session with the dispatcher, from the accepted connection on: the
  -- alerts streamed to the client and then those queued for it are some of the alerts broadcast,
  -- in the order of the broadcasts; they are all of them if the receiver has not lagged and the
  -- session has not failed; and nothing is streamed before the client subscribes.
  pub Reach-Inv :
      (version language : Text) (ok : Bool) (daemon : DaemonState) (pending : Option Alert)
      {w : World}
      → Reach from_timestamp decode (accepted version language ok daemon pending) w
      → Inv w
  Reach-Inv version language ok daemon pending here =
      accepted-Inv version language ok daemon pending
  Reach-Inv version language ok daemon pending (next r st) =
      Step-Inv st (Reach-Inv version language ok daemon pending r)
