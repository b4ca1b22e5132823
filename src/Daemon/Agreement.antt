-- ===== src/Daemon/Agreement.antt =====
-- What the clients of one daemon see, each beside the others
-- (crates/owlsentry-daemon/src/ipc_server.rs, crates/owlsentry-daemon/src/dispatcher.rs).
use owl_sentry.Base.{
  ℕ, suc, ◌≤◌, ◌<◌, ◌≡◌, sym, ap, ◌∙◌, ◌≢◌, ◌⊎◌, inl, inr, true, Option, List, [], ◌∷◌, ◌++◌,
  append-nil, arith, u64_mod, length, drop, In, Subseq, stop, keep, skip, Subseq-refl, Subseq-trans,
  nat_eq, list_eq, pair_eq,
}
use owl_sentry.Text.{Text}
use owl_sentry.Alert.Types.{DateTime, Alert}
use owl_sentry.Server.{Decoded, failed}
use owl_sentry.Server.Stream.{streamed}
use owl_sentry.Server.Progress.{waiting}
use owl_sentry.Dispatcher.Ids.{alerts, numbered, run-start, broadcast-IsAscending, IsAscending}
use owl_sentry.Daemon.{started, Client, Daemon, Reach}
use owl_sentry.Daemon.Sessions.{heard-arrivals, heard-broadcast, client-Inv}

-- Of two lists that end the same list, one ends the other.
ends-cases :
    {A : Type 0} (es fs xs ys : List A)
    → es ++ xs ≡ fs ++ ys
    → ((more : List A) × (xs ≡ more ++ ys)) ⊎ ((more : List A) × (ys ≡ more ++ xs))
ends-cases [] fs xs ys h = inl (fs, h)
ends-cases (e ∷ es) [] xs ys h = inr (e ∷ es, sym h)
ends-cases (e ∷ es) (f ∷ fs) xs ys h = ends-cases es fs xs ys (ap (drop 1) h)

IsAscending-le : (m n : ℕ) (xs : List Alert) → m ≤ n → IsAscending n xs → IsAscending m xs
IsAscending-le m n [] h a = tt
IsAscending-le m n (x ∷ xs) h a = (omega (arith, a.0), a.1)

Subseq-IsAscending :
    {xs ys : List Alert} → Subseq xs ys → (n : ℕ) → IsAscending n ys → IsAscending n xs
Subseq-IsAscending stop n a = tt
Subseq-IsAscending (keep x s) n a = (a.0, Subseq-IsAscending s (suc x.id) a.1)
Subseq-IsAscending {xs} (skip y s) n a =
    IsAscending-le n (suc y.id) xs (omega (arith, a.0)) (Subseq-IsAscending s (suc y.id) a.1)

Subseq-behind : {A : Type 0} (es xs : List A) → Subseq xs (es ++ xs)
Subseq-behind [] xs = Subseq-refl xs
Subseq-behind (e ∷ es) xs = skip e (Subseq-behind es xs)

Subseq-nil : {A : Type 0} (xs : List A) → Subseq [] xs
Subseq-nil [] = stop
Subseq-nil (x ∷ xs) = skip x (Subseq-nil xs)

Subseq-front : {A : Type 0} (xs ys : List A) → Subseq xs (xs ++ ys)
Subseq-front [] ys = Subseq-nil ys
Subseq-front (x ∷ xs) ys = keep x (Subseq-front xs ys)

module _ (from_timestamp : ℕ → ℕ → Option DateTime) (decode : Text → Decoded)
    (version language : Text) where
  module _ (now : DateTime) (capacity : ℕ) (h : Daemon)
      (reach : Reach from_timestamp decode version language (started now capacity) h) where
    -- A client whose receiver has not lagged, and whose session has not failed, misses nothing that is
    -- broadcast from its connection on, whatever the other clients do: what has arrived, numbered
    -- from 1, is as many alerts as had been broadcast when its connection was accepted, and then,
    -- in this order, the alerts streamed to it, those queued for it and the one about to be broadcast.
    pub clients_complete :
        (c : Client)
        → In c h.clients
        → c.lossless ≡ true
        → c.session.status ≢ failed
        → (earlier : List Alert) × (length earlier ≡ c.joined)
          × (alerts (numbered 1 h.arrivals)
              ≡ earlier ++ ((streamed c.session.sent ++ c.queue) ++ waiting h.pending))
    clients_complete c m l f =
        let (earlier, met, e) =
          heard-arrivals from_timestamp decode version language now capacity h c reach m in
        let v = client-Inv from_timestamp decode version language now capacity h c reach m in
        (earlier, met, e ∙ ap (λ x. earlier ++ (x ++ waiting h.pending)) (sym (v.whole l f)))

    all_streamed :
        (c : Client)
        → In c h.clients
        → c.lossless ≡ true
        → c.session.status ≢ failed
        → c.queue ≡ []
        → streamed c.session.sent ≡ c.heard
    all_streamed c m l f p =
        let v = client-Inv from_timestamp decode version language now capacity h c reach m in
        sym (append-nil (streamed c.session.sent))
        ∙ sym (ap (λ q. streamed c.session.sent ++ q) p)
        ∙ v.whole l f

    -- Two clients whose receivers have not lagged and are empty, and whose sessions have not failed,
    -- agree: what one has been streamed ends what the other has been streamed.
    pub clients_agree :
        (c d : Client)
        → In c h.clients
        → In d h.clients
        → c.lossless ≡ true
        → d.lossless ≡ true
        → c.session.status ≢ failed
        → d.session.status ≢ failed
        → c.queue ≡ []
        → d.queue ≡ []
        → ((more : List Alert) × (streamed c.session.sent ≡ more ++ streamed d.session.sent))
          ⊎ ((more : List Alert) × (streamed d.session.sent ≡ more ++ streamed c.session.sent))
    clients_agree c d m n l k f g p q =
        let (es, e) =
          heard-broadcast from_timestamp decode version language now capacity h c reach m in
        let (fs, e') =
          heard-broadcast from_timestamp decode version language now capacity h d reach n in
        let all_c = all_streamed c m l f p in
        let all_d = all_streamed d n k g q in
        ends-cases es fs (streamed c.session.sent) (streamed d.session.sent)
          (ap (λ x. es ++ x) all_c ∙ sym e ∙ e' ∙ sym (ap (λ x. fs ++ x) all_d))

    -- No client is ever streamed an alert twice or out of order, whether or not it has lost some or has
    -- failed: the numbers of the alerts streamed to it grow strictly, from 1 at least, as long
    -- as fewer than 2^64 alerts have arrived.
    pub streamed-IsAscending :
        (c : Client)
        → In c h.clients
        → length h.arrivals < u64_mod
        → IsAscending 1 (streamed c.session.sent)
    streamed-IsAscending c m few =
        let (earlier, met, e) =
          heard-arrivals from_timestamp decode version language now capacity h c reach m in
        let v = client-Inv from_timestamp decode version language now capacity h c reach m in
        Subseq-IsAscending
          (Subseq-trans (Subseq-front (streamed c.session.sent) c.queue) (
            Subseq-trans v.ordered
              (Subseq-trans (Subseq-front c.heard (waiting h.pending)) (Subseq-behind earlier _))))
          1
          (rw (sym e, sym ((run-start from_timestamp now capacity h.arrivals).0))
            (broadcast-IsAscending from_timestamp now capacity h.arrivals few))
