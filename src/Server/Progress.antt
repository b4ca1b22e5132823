-- ===== src/Server/Progress.antt =====
-- What the daemon has recorded beside what a session delivers, and the delivery of its queue.
use owl_sentry.Base.{
  ℕ, ◌≡◌, refl, sym, ap, ◌∙◌, ◌≢◌, Bool, true, Option, none, some, List, [], ◌∷◌, ◌++◌, append-nil,
  nat_eq, list_eq, pair_eq,
}
use owl_sentry.Text.{Text}
use owl_sentry.Alert.Types.{DateTime, Alert}
use owl_sentry.State.{record_alert, DaemonState}
use owl_sentry.State.Windows.{record_all}
use owl_sentry.Server.{Decoded, failed}
use owl_sentry.Server.World.{
  accepted, World, Step, records, broadcasts, reads, hangs_up, breaks, delivers, lags, Reach, here,
  next,
}
use owl_sentry.Server.Delivery.{Reach-Inv}
use owl_sentry.Server.Stream.{streamed}

-- The alert between the record and the broadcast
abbrev pub waiting : Option Alert → List Alert
waiting none = []
waiting (some a) = a ∷ []

module _ (from_timestamp : ℕ → ℕ → Option DateTime) (decode : Text → Decoded) where
  record_all-append :
      (log : List Alert) (a : Alert) (s : DaemonState)
      → record_all from_timestamp (log ++ (a ∷ [])) s
        ≡ record_alert from_timestamp a (record_all from_timestamp log s)
  unfolding record_all
  record_all-append [] a s = refl
  record_all-append (b ∷ log) a s = record_all-append log a (record_alert from_timestamp b s)

  -- The daemon has recorded what was broadcast and what is waiting to be.
  Recorded : DaemonState → World → Type 0
  Recorded before w = w.daemon ≡ record_all from_timestamp (w.broadcast ++ waiting w.pending) before

  Step-Recorded :
      (before : DaemonState) {w u : World}
      → Step from_timestamp decode w u
      → Recorded before w
      → Recorded before u
  unfolding Recorded
  Step-Recorded before {w} (records a e) h =
      let k : w.daemon ≡ record_all from_timestamp w.broadcast before =
        h
        ∙ ap (λ p. record_all from_timestamp (w.broadcast ++ waiting p) before) e
        ∙ ap (λ l. record_all from_timestamp l before) (append-nil w.broadcast) in
      ap (record_alert from_timestamp a) k ∙ sym (record_all-append w.broadcast a before)
  Step-Recorded before {w} (broadcasts a e) h =
      h
      ∙ ap (λ p. record_all from_timestamp (w.broadcast ++ waiting p) before) e
      ∙ ap (λ l. record_all from_timestamp l before) (sym (append-nil (w.broadcast ++ (a ∷ []))))
  Step-Recorded before (reads ok text r) h = h
  Step-Recorded before (hangs_up r) h = h
  Step-Recorded before (breaks r) h = h
  Step-Recorded before (delivers ok a rest r t e) h = h
  Step-Recorded before (lags n r t) h = h

  Reach-Recorded :
      (version language : Text) (ok : Bool) (before : DaemonState) (pending : Option Alert)
      {w : World}
      → Reach from_timestamp decode
          (accepted version language ok
            (record_all from_timestamp (waiting pending) before)
            pending)
          w
      → Recorded before w
  unfolding Recorded
  Reach-Recorded version language ok before pending here = refl
  Reach-Recorded version language ok before pending (next r st) =
      Step-Recorded before st (Reach-Recorded version language ok before pending r)

  -- Nothing gets lost between the dispatcher and a client: from the accepted connection on, in every
  -- interleaving, as long as the receiver has not lagged and the session has not failed, the daemon's
  -- state is what it was before, with the alerts streamed to the client, those queued for it and
  -- the one about to be broadcast recorded in this order. An alert that was about to be broadcast
  -- when the connection was accepted counts among these.
  pub Reach-complete :
      (version language : Text) (ok : Bool) (before : DaemonState) (pending : Option Alert)
      (w : World)
      → Reach from_timestamp decode
          (accepted version language ok
            (record_all from_timestamp (waiting pending) before)
            pending)
          w
      → w.lossless ≡ true
      → w.session.status ≢ failed
      → w.daemon
        ≡ record_all from_timestamp
            ((streamed w.session.sent ++ w.queue) ++ waiting w.pending)
            before
  unfolding Recorded
  Reach-complete version language ok before pending w r l f =
      let v = Reach-Inv from_timestamp decode version language ok _ pending r in
      Reach-Recorded version language ok before pending r
      ∙ ap (λ log. record_all from_timestamp (log ++ waiting w.pending) before) (sym (v.whole l f))
