-- ===== src/Dispatcher/Ids.antt =====
-- What the dispatcher makes of the alerts that it receives.
use owl_sentry.Base.{
  ℕ, suc, ◌+◌, ◌≤◌, ◌<◌, ◌≡◌, refl, sym, ◌∙◌, Bool, true, false, Option, List, [], ◌∷◌, ◌++◌, map,
  append_assoc, append-nil, arith, if◌then◌else◌, u64_mod, next_u64, length, nat_eq, list_eq,
  pair_eq,
}
use owl_sentry.Alert.Types.{DateTime, Alert}
use owl_sentry.State.{new_state}
use owl_sentry.State.Windows.{record_all}
use owl_sentry.Dispatcher.{dispatch, run, start, Dispatcher}

-- The alerts of a batch, numbered from `n` on.
unfoldable pub numbered : ℕ → List (Bool × Alert) → List (Bool × Alert)
numbered n [] = []
numbered n ((fits, a) ∷ rest) = (fits, record a { id = n }) ∷ numbered (next_u64 n) rest

abbrev pub alerts : List (Bool × Alert) → List Alert
alerts = map (λ p. p.1)

abbrev pub written : List (Bool × Alert) → List Alert
written [] = []
written ((fits, a) ∷ rest) = if fits then a ∷ written rest else written rest

module _ (from_timestamp : ℕ → ℕ → Option DateTime) where
  broadcast-run :
      (batch : List (Bool × Alert)) (d : Dispatcher)
      → (run from_timestamp batch d).broadcast ≡ d.broadcast ++ alerts (numbered d.next_id batch)
  unfolding run dispatch numbered
  broadcast-run [] d = sym (append-nil d.broadcast)
  broadcast-run ((fits, a) ∷ batch) d =
      broadcast-run batch (dispatch from_timestamp fits a d)
      ∙ append_assoc d.broadcast (record a { id = d.next_id } ∷ []) _

  state-run :
      (batch : List (Bool × Alert)) (d : Dispatcher)
      → (run from_timestamp batch d).state
        ≡ record_all from_timestamp (alerts (numbered d.next_id batch)) d.state
  unfolding run dispatch numbered record_all
  state-run [] d = refl
  state-run ((fits, a) ∷ batch) d = state-run batch (dispatch from_timestamp fits a d)

  writer-run :
      (batch : List (Bool × Alert)) (d : Dispatcher)
      → (run from_timestamp batch d).writer.lines
        ≡ d.writer.lines ++ written (numbered d.next_id batch)
  unfolding run dispatch numbered
  writer-run [] d = sym (append-nil d.writer.lines)
  writer-run ((true, a) ∷ batch) d =
      writer-run batch (dispatch from_timestamp true a d)
      ∙ append_assoc d.writer.lines (record a { id = d.next_id } ∷ []) _
  writer-run ((false, a) ∷ batch) d = writer-run batch (dispatch from_timestamp false a d)

  -- From a start, the clients are sent the received alerts in their order, numbered from 1; the
  -- state has recorded the same alerts in the same order; the journal holds those whose line could
  -- be written, in that order.
  pub run-start :
      (now : DateTime) (capacity : ℕ) (batch : List (Bool × Alert))
      → ((run from_timestamp batch (start now capacity)).broadcast ≡ alerts (numbered 1 batch))
        × ((run from_timestamp batch (start now capacity)).state
            ≡ record_all from_timestamp (alerts (numbered 1 batch)) (new_state now capacity))
        × ((run from_timestamp batch (start now capacity)).writer.lines
            ≡ written (numbered 1 batch))
  unfolding start
  run-start now capacity batch = (
    broadcast-run batch (start now capacity),
    state-run batch (start now capacity),
    writer-run batch (start now capacity),
  )

  next_id-run :
      (batch : List (Bool × Alert)) (d : Dispatcher)
      → d.next_id + length batch < u64_mod
      → (run from_timestamp batch d).next_id ≡ d.next_id + length batch
  unfolding run dispatch
  next_id-run [] d h = omega arith
  next_id-run ((fits, a) ∷ batch) d h =
      let e : next_u64 d.next_id ≡ suc d.next_id = omega arith in
      let ih = next_id-run batch (dispatch from_timestamp fits a d) (omega (arith, h, e)) in
      ih ∙ omega (arith, e)

  pub next_id-start :
      (now : DateTime) (capacity : ℕ) (batch : List (Bool × Alert))
      → suc (length batch) < u64_mod
      → (run from_timestamp batch (start now capacity)).next_id ≡ suc (length batch)
  unfolding start
  next_id-start now capacity batch h =
      next_id-run batch (start now capacity) (omega (arith, h)) ∙ omega arith

-- Numbers that grow from the front to the back, all at least `n`.
abbrev pub IsAscending : ℕ → List Alert → Type 0
IsAscending n [] = Unit
IsAscending n (a ∷ rest) = (n ≤ a.id) × IsAscending (suc a.id) rest

numbered-IsAscending :
    (n : ℕ) (batch : List (Bool × Alert))
    → n + length batch ≤ u64_mod
    → IsAscending n (alerts (numbered n batch))
unfolding numbered
numbered-IsAscending n [] h = tt
numbered-IsAscending n ((fits, a) ∷ []) h = (omega arith, tt)
numbered-IsAscending n ((fits, a) ∷ b ∷ batch) h =
    let e : next_u64 n ≡ suc n = omega arith in
    let rest = numbered-IsAscending (suc n) (b ∷ batch) (omega arith) in (omega arith, rw e rest)

-- The numbers that the clients see grow strictly from 1 on, so no two alerts share one and none
-- is 0, as long as fewer than 2^64 alerts are received.
pub broadcast-IsAscending :
    (from_timestamp : ℕ → ℕ → Option DateTime) (now : DateTime) (capacity : ℕ)
    (batch : List (Bool × Alert))
    → length batch < u64_mod
    → IsAscending 1 (run from_timestamp batch (start now capacity)).broadcast
broadcast-IsAscending from_timestamp now capacity batch h =
    rw ((run-start from_timestamp now capacity batch).0)
      (numbered-IsAscending 1 batch (omega arith))
