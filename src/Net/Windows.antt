-- ===== src/Net/Windows.antt =====
-- The entries of `ScanTracker`, and the number that `record` returns.
use owl_sentry.Base.{
  ℕ, ◌-◌, ◌<◌, ◌≡◌, refl, ◌∙◌, ◌≢◌, inl, inr, Bool, true, false, ◌||◌, none, List, [], ◌∷◌, ◌++◌,
  arith, ltb, if◌then◌else◌, Bool-cases, length, filter, any, All, All-append, All-filter, In, ◌==◌,
  nat_eq, list_eq, pair_eq, eq_refl, lookup, lookup-insert, lookup-insert_self,
}
use owl_sentry.Net.Addr.{addr_eq, IpAddr}
use owl_sentry.Net.Tracker.{Probe, probe, entry_of, record_probe, ScanTracker}

-- No port stands twice in an entry.
abbrev pub DistinctPorts : List Probe → Type 0
DistinctPorts [] = Unit
DistinctPorts (e ∷ es) = (any (λ f. f.1 == e.1) es ≡ false) × DistinctPorts es

any-filter : (p q : Probe → Bool) (es : List Probe) → any p es ≡ false → any p (filter q es) ≡ false
any-filter p q [] h = refl
any-filter p q (e ∷ es) h = ground (arith, any-filter p q es)

filter-DistinctPorts :
    (q : Probe → Bool) (es : List Probe) → DistinctPorts es → DistinctPorts (filter q es)
filter-DistinctPorts q [] d = tt
filter-DistinctPorts q (e ∷ es) d = elim (Bool-cases (q e)) [
  | inl k ↦ rw k (any-filter _ q es d.0, filter-DistinctPorts q es d.1)
  | inr k ↦ rw k (filter-DistinctPorts q es d.1)
]

any-append : (p : Probe → Bool) (es fs : List Probe) → any p (es ++ fs) ≡ (any p es || any p fs)
any-append p [] fs = refl
any-append p (e ∷ es) fs = ground (arith, any-append p es fs)

push-DistinctPorts :
    (es : List Probe) (now port : ℕ)
    → DistinctPorts es
    → any (λ e. e.1 == port) es ≡ false
    → DistinctPorts (es ++ ((now, port) ∷ []))
push-DistinctPorts [] now port d h = (refl, tt)
push-DistinctPorts (e ∷ es) now port d h = (
  any-append (λ f. f.1 == e.1) es ((now, port) ∷ []) ∙ ground arith,
  push-DistinctPorts es now port d.1 (ground arith),
)

any-push :
    (es : List Probe) (now port : ℕ) → any (λ e. e.1 == port) (es ++ ((now, port) ∷ [])) ≡ true
any-push es now port =
    any-append (λ e. e.1 == port) es ((now, port) ∷ []) ∙ ground (arith, eq_refl port)

-- `log` is the history of an entry: the probes of the address, each an instant and a port. An entry
-- is justified by it if each of its probes is there.
abbrev pub Justified : List Probe → List Probe → Type 0
Justified entry log = All (λ e. In e log) entry

All-within :
    (window now : ℕ) (es : List Probe)
    → All (λ e. ltb (now - e.0) window ≡ true) (filter (λ e. ltb (now - e.0) window) es)
All-within window now [] = tt
All-within window now (e ∷ es) = elim (Bool-cases (ltb (now - e.0) window)) [
  | inl k ↦ rw k (k, All-within window now es)
  | inr k ↦ rw k (All-within window now es)
]

All-later : (p : Probe) (log es : List Probe) → Justified es log → Justified es (p ∷ log)
All-later p log [] h = tt
All-later p log (e ∷ es) h = (inr h.0, All-later p log es h.1)

-- Recording a probe in an entry with distinct ports that its history justifies: the new entry has
-- distinct ports, the probed one among them, all of them probed within the window, as the history
-- with the new probe justifies; so the number returned never exceeds what was probed in time.
pub probe_sound :
    (port window now : ℕ) (entry log : List Probe)
    → 0 < window
    → DistinctPorts entry
    → Justified entry log
    → DistinctPorts (probe port window now entry)
      × (any (λ e. e.1 == port) (probe port window now entry) ≡ true)
      × All (λ e. ltb (now - e.0) window ≡ true) (probe port window now entry)
      × Justified (probe port window now entry) ((now, port) ∷ log)
unfolding probe
probe_sound port window now entry log pos d j =
    let kept = filter (λ e. ltb (now - e.0) window) entry in
    let kd = filter-DistinctPorts (λ e. ltb (now - e.0) window) entry d in
    let kw = All-within window now entry in
    let kj = All-later (now, port) log kept (All-filter _ (λ e. ltb (now - e.0) window) entry j) in
    elim (Bool-cases (any (λ e. e.1 == port) kept)) [
      | inl old ↦ rw old (kd, old, kw, kj)
      | inr new ↦
          let fresh : ltb (now - now) window ≡ true = ground arith in
          rw new (
            push-DistinctPorts kept now port kd new,
            any-push kept now port,
            All-append _ kept ((now, port) ∷ []) kw (fresh, tt),
            All-append _ kept ((now, port) ∷ []) kj (inl refl, tt),
          )
    ]

-- A probe changes the entry of its own address only, to what `probe` makes of it, and the number
-- returned is the length of that entry.
pub record_probe-entry :
    (ip other : IpAddr) (port window now : ℕ) (t : ScanTracker)
    → (entry_of other (record_probe ip port window now t).0
        ≡ (if other == ip then probe port window now (entry_of ip t) else entry_of other t))
      × ((record_probe ip port window now t).1
          ≡ length (entry_of ip (record_probe ip port window now t).0))
unfolding record_probe entry_of
record_probe-entry ip other port window now t =
    let entry = probe port window now (entry_of ip t) in
    (
      rw (lookup-insert ip other entry t.probes) (ground arith),
      rw (lookup-insert_self ip entry t.probes) refl,
    )

-- The instant of a probe is not renewed when the port is probed again, so a port probed twice,
-- the second time just before its first probe leaves the window, is forgotten with the first: a
-- probe of another port at the end of the window finds one port only, though both were probed
-- within the last `window`.
pub record_probe-forgets :
    (p q window : ℕ)
    → 1 < window
    → p ≢ q
    → length (probe q window window (probe p window (window - 1) (probe p window 0 []))) ≡ 1
unfolding probe
record_probe-forgets p q window h ne = ground arith

-- A probe takes no entry away.
pub lookup-record_probe :
    (ip other : IpAddr) (port window now : ℕ) (t : ScanTracker)
    → lookup other t.probes ≢ none
    → lookup other (record_probe ip port window now t).0.probes ≢ none
unfolding record_probe
lookup-record_probe ip other port window now t h =
    rw (lookup-insert ip other (probe port window now (entry_of ip t)) t.probes) (ground arith)
