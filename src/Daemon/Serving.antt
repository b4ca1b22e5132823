-- ===== src/Daemon/Serving.antt =====
-- What each step of the daemon is to one of its clients (crates/owlsentry-daemon/src/ipc_server.rs).
use owl_sentry.Base.{
  length, ℕ, ◌≡◌, sym, ap, ◌∙◌, Bool, Option, none, some, List, [], ◌∷◌, ◌++◌, map, append_assoc,
  All, nat_eq, list_eq, pair_eq,
}
use owl_sentry.Text.{Text}
use owl_sentry.Alert.Types.{DateTime, Alert}
use owl_sentry.Server.{Decoded}
use owl_sentry.Server.World
use owl_sentry.Server.World.{accepted, World}
use owl_sentry.Dispatcher.{Dispatcher}
use owl_sentry.Daemon.{hear, begin, view, Client, Daemon}

-- A session that has run, alone beside the dispatcher, since an accepted connection
abbrev pub Alone :
    (ℕ → ℕ → Option DateTime) → (Text → Decoded) → (version language : Text) → World → Type 0
Alone from_timestamp decode version language w =
    (greeted : Bool) × (then : Dispatcher) × (about : Option Alert) × World.Reach from_timestamp
      decode (accepted version language greeted then.state about) w

-- What is true of a client: its session and receiver have run as a session of their own since an
-- accepted connection, and have heard all that was broadcast since.
pub record Served (from_timestamp : ℕ → ℕ → Option DateTime) (decode : Text → Decoded)
    (version language : Text) (dispatcher : Dispatcher) (pending : Option Alert) (c : Client)
    : Type 0 where
  pub alone : Alone from_timestamp decode version language (view dispatcher pending c)
  pub since :
      (earlier : List Alert) × (length earlier ≡ c.joined)
      × (dispatcher.broadcast ≡ earlier ++ c.heard)

module _ {A : Type 0} where
  pub All-map_to :
      (P Q : A → Type 0) (f : A → A)
      → ((a : A) → P a → Q (f a))
      → (xs : List A) → All P xs
      → All Q (map f xs)
  All-map_to P Q f k [] h = tt
  All-map_to P Q f k (x ∷ xs) h = (k x h.0, All-map_to P Q f k xs h.1)

  pub All-change : (P Q : A → Type 0) → ((a : A) → P a → Q a) → (xs : List A) → All P xs → All Q xs
  All-change P Q k [] h = tt
  All-change P Q k (x ∷ xs) h = (k x h.0, All-change P Q k xs h.1)

  pub All-replace :
      (P : A → Type 0) (xs : List A) (a b : A) (ys : List A)
      → (P a → P b)
      → All P (xs ++ (a ∷ ys))
      → All P (xs ++ (b ∷ ys))
  All-replace P [] a b ys k h = (k h.0, h.1)
  All-replace P (x ∷ xs) a b ys k h = (h.0, All-replace P xs a b ys k h.1)

module _ (from_timestamp : ℕ → ℕ → Option DateTime) (decode : Text → Decoded)
    (version language : Text) where
  goes_on :
      {u w : World}
      → World.Step from_timestamp decode u w
      → Alone from_timestamp decode version language u
      → Alone from_timestamp decode version language w
  goes_on st (greeted, then, about, r) = (greeted, then, about, World.Reach.next r st)

  -- What is pending, or broadcast, reaches each client as the step of a session.
  pub receives-Served :
      (h : Daemon) (fits : Bool) (a : Alert) (c : Client)
      → h.pending ≡ none
      → Served from_timestamp decode version language h.dispatcher h.pending c
      → Served from_timestamp decode version language
          (begin from_timestamp fits a h.dispatcher)
          (some (record a { id = h.dispatcher.next_id }))
          c
  receives-Served h fits a c p s = record {
    alone = goes_on (World.Step.records (record a { id = h.dispatcher.next_id }) p) s.alone;
    since = s.since;
  }

  pub broadcasts-Served :
      (h : Daemon) (a : Alert) (c : Client)
      → h.pending ≡ some a
      → Served from_timestamp decode version language h.dispatcher h.pending c
      → Served from_timestamp decode version language
          (record h.dispatcher { broadcast = h.dispatcher.broadcast ++ (a ∷ []) })
          none
          (hear a c)
  broadcasts-Served h a c p s =
      let (earlier, met, e) = s.since in
      record {
        alone = goes_on (World.Step.broadcasts a p) s.alone;
        since = (earlier, met, ap (λ l. l ++ (a ∷ [])) e ∙ append_assoc earlier c.heard (a ∷ []));
      }

  pub serves-Served :
      (h : Daemon) (c d : Client)
      → d.heard ≡ c.heard
      → d.joined ≡ c.joined
      → World.Step from_timestamp decode
          (view h.dispatcher h.pending c)
          (view h.dispatcher h.pending d)
      → Served from_timestamp decode version language h.dispatcher h.pending c
      → Served from_timestamp decode version language h.dispatcher h.pending d
  serves-Served h c d same old st s =
      let (earlier, met, told) = s.since in
      record {
        alone = goes_on st s.alone;
        since = (earlier, met ∙ sym old, told ∙ ap (λ x. earlier ++ x) (sym same));
      }
