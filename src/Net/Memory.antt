-- ===== src/Net/Memory.antt =====
-- What the network monitor keeps of the addresses that have probed it
-- (crates/owlsentry-daemon/src/monitors/net.rs, `run`).
use owl_sentry.Base.{
  ℕ, ◌≡◌, refl, sym, ap, ◌∙◌, ◌≢◌, ◌⊎◌, inl, inr, Bool, true, false, not, ◌&&◌, Option, none, some,
  List, if◌then◌else◌, leb, length, Bool-cases, In, In-append_left, In-append_right, filter, nat_eq,
  ◌==◌, list_eq, pair_eq, lookup, insert, lookup-remove, contains,
}
use owl_sentry.Text.{Text, codes}
use owl_sentry.Text.Numbers.{int_eq, ℤ}
use owl_sentry.Alert.Types.{with_meta, DateTime, Alert}
use owl_sentry.I18n.{Lang}
use owl_sentry.Channel.{emit, alert_of, for_each, for_each_inv, Env, Outbox}
use owl_sentry.Net.Addr.{addr_eq, is_local, IpAddr}
use owl_sentry.Net.Line.{tcp_established, tcp_syn_recv, TcpConn}
use owl_sentry.Net.Tracker.{record_probe, forget, ScanTracker}
use owl_sentry.Net.Windows.{lookup-record_probe}
use owl_sentry.Net.Monitor.{
  listeners, difference, announce_listener, check_listeners, report_scan, window_of, check_syn,
  check_port, check_owner, check_established, check_scans, check_connections, trim_sets, in_state,
  scan_alert, tick, run, NetCfg, Sample, Monitor, Seen,
}

emit-told :
    (env : Env) (make : DateTime → Alert) (out : Outbox) (a : Alert)
    → In a out.sent
    → In a (emit env make out).sent
unfolding emit
emit-told env make out a m = elim (Bool-cases (env.accepts (length out.sent))) [
  | inl e ↦ rw e (In-append_left a out.sent _ m)
  | inr e ↦ rw e m
]

emit-closed :
    (env : Env) (make : DateTime → Alert) (out : Outbox)
    → out.is_open ≡ false
    → (emit env make out).is_open ≡ false
unfolding emit
emit-closed env make out c = elim (Bool-cases (env.accepts (length out.sent))) [
  | inl e ↦ rw e c
  | inr e ↦ rw e refl
]

-- An alert is sent, or the monitor ends.
emit-sent :
    (env : Env) (make : DateTime → Alert) (out : Outbox)
    → ((now : DateTime) × In (make now) (emit env make out).sent)
      ⊎ ((emit env make out).is_open ≡ false)
unfolding emit
emit-sent env make out = elim (Bool-cases (env.accepts (length out.sent))) [
  | inl e ↦ inl (env.clock (length out.sent), rw e (In-append_right _ out.sent _ (inl refl)))
  | inr e ↦ inr (rw e refl)
]

module _ (env : Env) (show_addr : IpAddr → Text) (cfg : NetCfg) (lang : Lang) (ip : IpAddr) where
  -- The address has an entry, or an alert that names it has been sent, or the monitor has ended.
  abbrev pub Known : ScanTracker → Outbox → Type 0
  Known tracker out =
      (lookup ip tracker.probes ≢ none)
      ⊎ ((a : Alert) × In a out.sent × (lookup (codes "ip") a.metadata ≡ some (show_addr ip)))
      ⊎ (out.is_open ≡ false)

  abbrev pub Remembered : Monitor → Type 0
  Remembered m = Known m.tracker m.out

  either_branch :
      (b : Bool) (s t : Monitor) → Remembered s → Remembered t → Remembered (if b then s else t)
  either_branch true s t h k = h
  either_branch false s t h k = k

  emit-Known :
      (make : DateTime → Alert) (tracker : ScanTracker) (out : Outbox)
      → Known tracker out
      → Known tracker (emit env make out)
  emit-Known make tracker out (inl h) = inl h
  emit-Known make tracker out (inr (inl (a, m, e))) = inr (inl (a, emit-told env make out a m, e))
  emit-Known make tracker out (inr (inr c)) = inr (inr (emit-closed env make out c))

  announce_listener-Remembered :
      (port : ℕ) (m : Monitor)
      → Remembered m
      → Remembered (announce_listener env show_addr cfg lang port m)
  unfolding announce_listener
  announce_listener-Remembered port m h = emit-Known _ m.tracker m.out h

  check_listeners-Remembered :
      (conns : List Seen) (m : Monitor)
      → Remembered m
      → Remembered (check_listeners env show_addr cfg lang conns m)
  unfolding check_listeners
  check_listeners-Remembered conns m h =
      let ports = difference (listeners conns) m.known_listeners in
      let told = for_each (λ s. s.out) (announce_listener env show_addr cfg lang) ports m in
      let k =
        for_each_inv (λ s. s.out) (announce_listener env show_addr cfg lang) Remembered
          announce_listener-Remembered ports m h in
      let next = either_branch (m.baseline_done && cfg.alert_new_listener) told m k h in
      either_branch _ _ _ next next

  -- The report of an address: that one is named, and every other keeps its entry.
  report_scan-Remembered :
      (works : IpAddr → Bool) (other : IpAddr) (distinct : ℕ) (m : Monitor)
      → Remembered m
      → Remembered (report_scan env show_addr cfg lang works other distinct m)
  unfolding report_scan forget scan_alert alert_of with_meta insert lookup
  report_scan-Remembered works other distinct m (inl h) =
      let wanted = cfg.firewalld_block && not (contains other cfg.never_block) in
      let make = scan_alert env show_addr cfg lang other distinct (wanted && works other) in
      elim (Bool-cases (ip == other)) [
        | inl e ↦ elim (emit-sent env make m.out) [
          | inl (now, k) ↦ inr (
              inl
                (make now, k, ap (λ a. some (show_addr a)) (sym ((addr_eq.beq_iff ip other).0 e))))
          | inr c ↦ inr (inr c)
        ]
        | inr e ↦ inl (λ k. h (sym (rw (lookup-remove other ip m.tracker.probes, e) refl) ∙ k))
      ]
  report_scan-Remembered works other distinct m (inr (inl (a, k, e))) =
      inr (inl (a, emit-told env _ m.out a k, e))
  report_scan-Remembered works other distinct m (inr (inr c)) =
      inr (inr (emit-closed env _ m.out c))

  record_probe-Remembered :
      (other : IpAddr) (port window now : ℕ) (m : Monitor)
      → Remembered m
      → Remembered (record m { tracker = (record_probe other port window now m.tracker).0 })
  record_probe-Remembered other port window now m (inl h) =
      inl (lookup-record_probe other ip port window now m.tracker h)
  record_probe-Remembered other port window now m (inr h) = inr h

  check_syn-Remembered :
      (works : IpAddr → Bool) (c : Seen) (m : Monitor)
      → Remembered m
      → Remembered (check_syn env show_addr cfg lang works c m)
  unfolding check_syn
  check_syn-Remembered works (conn, now) m h =
      let other = conn.remote_addr in
      let r = record_probe other conn.local_port (window_of cfg) now m.tracker in
      let k = record_probe-Remembered other conn.local_port (window_of cfg) now m h in
      let recorded = record m { tracker = r.0 } in
      either_branch (is_local other) m _ h (
        either_branch (leb cfg.port_scan_threshold r.1 && not (contains other m.reported_scans)) _
          recorded (report_scan-Remembered works other r.1 recorded k) k)

  check_port-Remembered :
      (conn : TcpConn) (m : Monitor)
      → Remembered m
      → Remembered (check_port env show_addr cfg lang conn m)
  unfolding check_port
  check_port-Remembered conn m h =
      elim (Bool-cases (
        contains conn.remote_port cfg.suspicious_ports
        && not (contains (conn.remote_addr, conn.remote_port) m.reported_susp_ports))) [
          | inl e ↦ rw e (emit-Known _ m.tracker m.out h)
          | inr e ↦ rw e h
        ]

  check_owner-Remembered :
      (conn : TcpConn) (owner : Option (ℤ × Text)) (m : Monitor)
      → Remembered m
      → Remembered (check_owner env show_addr cfg lang conn owner m)
  unfolding check_owner
  check_owner-Remembered conn none m h = h
  check_owner-Remembered conn (some (pid, comm)) m h =
      elim (Bool-cases (
        contains comm cfg.shell_processes
        && not (contains (pid, conn.remote_port) m.reported_shell_conns))) [
          | inl e ↦ rw e (emit-Known _ m.tracker m.out h)
          | inr e ↦ rw e h
        ]

  check_established-Remembered :
      (owners : List (ℕ × (ℤ × Text))) (c : Seen) (m : Monitor)
      → Remembered m
      → Remembered (check_established env show_addr cfg lang owners c m)
  unfolding check_established
  check_established-Remembered owners (conn, now) m h =
      let ported = check_port env show_addr cfg lang conn m in
      let k = check_port-Remembered conn m h in
      either_branch ported.out.is_open _ ported
        (check_owner-Remembered conn (lookup conn.inode owners) ported k) k

  tick-Remembered :
      (sample : Sample) (m : Monitor)
      → Remembered m
      → Remembered (tick env show_addr cfg lang sample m)
  unfolding tick check_scans check_connections trim_sets
  tick-Remembered sample m h =
      let heard = check_listeners env show_addr cfg lang sample.conns m in
      let scanned = check_scans env show_addr cfg lang sample heard in
      let settled = check_connections env show_addr cfg lang sample scanned in
      let k =
        for_each_inv (λ s. s.out) (check_established env show_addr cfg lang sample.owners)
          Remembered (check_established-Remembered sample.owners)
          (filter (λ c. not (is_local c.0.remote_addr)) (in_state tcp_established sample.conns))
          scanned
          (for_each_inv (λ s. s.out) (check_syn env show_addr cfg lang sample.block_works)
            Remembered (check_syn-Remembered sample.block_works)
            (in_state tcp_syn_recv sample.conns) heard
            (check_listeners-Remembered sample.conns m h)) in
      either_branch settled.out.is_open _ settled k k

  -- The monitor never gives up the entry of an address for its age: an address that has an entry still
  -- has one after any number of turns, whenever its probes were, unless an alert that names it has
  -- been sent, or the monitor has ended because a send failed.
  pub run-Remembered :
      (samples : List Sample) (m : Monitor)
      → lookup ip m.tracker.probes ≢ none
      → Remembered (run env show_addr cfg lang samples m)
  unfolding run
  run-Remembered samples m h =
      for_each_inv (λ s. s.out) (tick env show_addr cfg lang) Remembered tick-Remembered samples m
        (inl h)
