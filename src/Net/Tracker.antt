-- ===== src/Net/Tracker.antt =====
-- crates/owlsentry-daemon/src/monitors/net.rs: `ScanTracker`. Instants and durations are numbers of
-- one unit; `duration_since` of a later instant is 0.
use owl_sentry.Base.{
  ℕ, ◌-◌, List, [], ◌∷◌, ◌++◌, ltb, if◌then◌else◌, or_default, length, filter, any, ◌==◌, nat_eq,
  list_eq, pair_eq, lookup, insert, remove,
}
use owl_sentry.Net.Addr.{addr_eq, IpAddr}

abbrev pub Probe : Type 0
Probe = ℕ × ℕ

pub record ScanTracker : Type 0 where
  pub probes : List (IpAddr × List Probe)

unfoldable pub empty_tracker : ScanTracker
empty_tracker = record { probes = [] }

-- The entry of an address after `retain` and the push of a port that is not there.
unfoldable pub probe : ℕ → ℕ → ℕ → List Probe → List Probe
probe port window now entry =
    let kept = filter (λ e. ltb (now - e.0) window) entry in
    if any (λ e. e.1 == port) kept then kept else kept ++ ((now, port) ∷ [])

unfoldable pub entry_of : IpAddr → ScanTracker → List Probe
entry_of ip t = or_default [] (lookup ip t.probes)

-- `record`, at the instant `now`
unfoldable pub record_probe : IpAddr → ℕ → ℕ → ℕ → ScanTracker → ScanTracker × ℕ
unfolding entry_of
record_probe ip port window now t =
    let entry = probe port window now (entry_of ip t) in
    (record { probes = insert ip entry t.probes }, length entry)

unfoldable pub forget : IpAddr → ScanTracker → ScanTracker
forget ip t = record { probes = remove ip t.probes }
