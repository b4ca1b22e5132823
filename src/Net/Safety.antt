-- ===== src/Net/Safety.antt =====
-- What the network monitor reports and blocks, over any number of turns.
use mathlib.Core.Bool.{false≢true}
use owl_sentry.Base.{
  ℕ, ◌≤◌, ◌≡◌, refl, inl, inr, Bool, true, false, not, ◌&&◌, ◌||◌, Option, none, some, List, arith,
  leb, if◌then◌else◌, Bool-cases, length, filter, All, All-append, nat_eq, list_eq, pair_eq,
  eq_refl, contains, contains-insert_set, lookup,
}
use owl_sentry.Text.{Text}
use owl_sentry.I18n.{Lang}
use owl_sentry.Channel.{for_each, for_each_inv, Env}
use owl_sentry.Net.Addr.{addr_eq, is_local, IpAddr}
use owl_sentry.Net.Line.{tcp_established, tcp_syn_recv, TcpConn}
use owl_sentry.Net.Tracker.{record_probe}
use owl_sentry.Net.Monitor.{
  window_of, Seen, new_monitor, listeners, difference, bounded, trim_sets, in_state,
  announce_listener, check_listeners, report_scan, check_syn, check_port, check_owner,
  check_established, check_scans, check_connections, tick, run, NetCfg, Sample, Monitor,
}
use owl_sentry.Text.Numbers.{int_eq, ℤ}

module _ (env : Env) (show_addr : IpAddr → Text) (cfg : NetCfg) (lang : Lang) where
  -- A call of firewalld that the configuration allows.
  abbrev pub IsAllowed : IpAddr × ℕ → Type 0
  IsAllowed call =
      (cfg.firewalld_block ≡ true)
      × (contains call.0 cfg.never_block ≡ false)
      × (is_local call.0 ≡ false)
      × (call.1 ≡ cfg.block_duration_secs)

  abbrev pub AllAllowed : Monitor → Type 0
  AllAllowed m = All IsAllowed m.firewall_calls

  report_scan-AllAllowed :
      (works : IpAddr → Bool) (ip : IpAddr) (distinct : ℕ) (m : Monitor)
      → is_local ip ≡ false
      → AllAllowed m
      → AllAllowed (report_scan env show_addr cfg lang works ip distinct m)
  unfolding report_scan
  report_scan-AllAllowed works ip distinct m far h =
      elim (Bool-cases (cfg.firewalld_block && not (contains ip cfg.never_block))) [
        | inl e ↦ rw e (
            All-append IsAllowed m.firewall_calls _ h ((ground arith, ground arith, far, refl), tt))
        | inr e ↦ rw e h
      ]

  check_syn-AllAllowed :
      (works : IpAddr → Bool) (c : Seen) (m : Monitor)
      → AllAllowed m
      → AllAllowed (check_syn env show_addr cfg lang works c m)
  unfolding check_syn
  check_syn-AllAllowed works (conn, now) m h = elim (Bool-cases (is_local conn.remote_addr)) [
    | inl e ↦ rw e h
    | inr e ↦
        let r = record_probe conn.remote_addr conn.local_port (window_of cfg) now m.tracker in
        elim (Bool-cases
          (leb cfg.port_scan_threshold r.1 && not (contains conn.remote_addr m.reported_scans))) [
            | inl f ↦
                rw (e, f)
                  (report_scan-AllAllowed works conn.remote_addr r.1 (record m { tracker = r.0 }) e
                    h)
            | inr f ↦ rw (e, f) h
          ]
  ]

  check_listeners-AllAllowed :
      (conns : List Seen) (m : Monitor)
      → AllAllowed m
      → AllAllowed (check_listeners env show_addr cfg lang conns m)
  unfolding check_listeners
  check_listeners-AllAllowed conns m h =
      elim (Bool-cases (m.baseline_done && cfg.alert_new_listener)) [
        | inl e ↦ rw e (noted _ (told (difference (listeners conns) m.known_listeners)))
        | inr e ↦ rw e (noted m h)
      ]
    where
      told :
          (ports : List ℕ)
          → AllAllowed (for_each (λ s. s.out) (announce_listener env show_addr cfg lang) ports m)
      told ports =
          for_each_inv (λ s. s.out) (announce_listener env show_addr cfg lang) AllAllowed
            (λ x t k. k) ports m h

      noted :
          (t : Monitor)
          → AllAllowed t
          → AllAllowed (
              if t.out.is_open
              then record t { known_listeners = listeners conns; baseline_done = true }
              else t)
      noted t k = elim (Bool-cases t.out.is_open) [ inl e ↦ rw e k | inr e ↦ rw e k ]

  check_port-calls :
      (conn : TcpConn) (m : Monitor)
      → (check_port env show_addr cfg lang conn m).firewall_calls ≡ m.firewall_calls
  unfolding check_port
  check_port-calls conn m = ground arith

  check_owner-calls :
      (conn : TcpConn) (owner : Option (ℤ × Text)) (m : Monitor)
      → (check_owner env show_addr cfg lang conn owner m).firewall_calls ≡ m.firewall_calls
  unfolding check_owner
  check_owner-calls conn none m = refl
  check_owner-calls conn (some (pid, comm)) m = ground arith

  check_established-AllAllowed :
      (owners : List (ℕ × (ℤ × Text))) (c : Seen) (m : Monitor)
      → AllAllowed m
      → AllAllowed (check_established env show_addr cfg lang owners c m)
  unfolding check_established
  check_established-AllAllowed owners (conn, now) m h =
      let ported = check_port env show_addr cfg lang conn m in
      let owned = check_owner-calls conn (lookup conn.inode owners) ported in
      let same = check_port-calls conn m in
      elim (Bool-cases ported.out.is_open) [
        | inl e ↦ rw (e, owned, same) h
        | inr e ↦ rw (e, same) h
      ]

  trim_sets-AllAllowed : (m : Monitor) → AllAllowed m → AllAllowed (trim_sets m)
  unfolding trim_sets
  trim_sets-AllAllowed m h = elim (Bool-cases m.out.is_open) [ inl e ↦ rw e h | inr e ↦ rw e h ]

  check_scans-AllAllowed :
      (sample : Sample) (m : Monitor)
      → AllAllowed m
      → AllAllowed (check_scans env show_addr cfg lang sample m)
  unfolding check_scans
  check_scans-AllAllowed sample m h =
      for_each_inv (λ s. s.out) (check_syn env show_addr cfg lang sample.block_works) AllAllowed
        (check_syn-AllAllowed sample.block_works) (in_state tcp_syn_recv sample.conns) m h

  check_connections-AllAllowed :
      (sample : Sample) (m : Monitor)
      → AllAllowed m
      → AllAllowed (check_connections env show_addr cfg lang sample m)
  unfolding check_connections
  check_connections-AllAllowed sample m h =
      for_each_inv (λ s. s.out) (check_established env show_addr cfg lang sample.owners) AllAllowed
        (check_established-AllAllowed sample.owners)
        (filter (λ c. not (is_local c.0.remote_addr)) (in_state tcp_established sample.conns)) m h

  tick-AllAllowed :
      (sample : Sample) (m : Monitor)
      → AllAllowed m
      → AllAllowed (tick env show_addr cfg lang sample m)
  unfolding tick
  tick-AllAllowed sample m h =
      let heard = check_listeners env show_addr cfg lang sample.conns m in
      let scanned = check_scans env show_addr cfg lang sample heard in
      let settled = check_connections env show_addr cfg lang sample scanned in
      trim_sets-AllAllowed settled (
        check_connections-AllAllowed sample scanned
          (check_scans-AllAllowed sample heard (check_listeners-AllAllowed sample.conns m h)))

  -- However many samples the monitor works through, firewalld is called only if the configuration
  -- asks for it, only for addresses that are neither local nor among those never to be blocked, and
  -- for the configured time.
  pub run-AllAllowed :
      (samples : List Sample) → AllAllowed (run env show_addr cfg lang samples new_monitor)
  unfolding run new_monitor
  run-AllAllowed samples =
      for_each_inv (λ s. s.out) (tick env show_addr cfg lang) AllAllowed tick-AllAllowed samples
        new_monitor tt

  -- An address that is reported already is reported and blocked no more.
  pub check_syn_again :
      (works : IpAddr → Bool) (conn : TcpConn) (now : ℕ) (m : Monitor)
      → contains conn.remote_addr m.reported_scans ≡ true
      → ((check_syn env show_addr cfg lang works (conn, now) m).out ≡ m.out)
        × ((check_syn env show_addr cfg lang works (conn, now) m).firewall_calls ≡ m.firewall_calls)
        × ((check_syn env show_addr cfg lang works (conn, now) m).reported_scans ≡ m.reported_scans)
  unfolding check_syn
  check_syn_again works conn now m h = ground arith

  -- A connection in state SYN_RECV makes its address reported exactly if it is not local and the
  -- ports counted for it reach the threshold, if it was not reported before.
  pub check_syn-reports :
      (works : IpAddr → Bool) (conn : TcpConn) (now : ℕ) (m : Monitor)
      → contains conn.remote_addr
          (check_syn env show_addr cfg lang works (conn, now) m).reported_scans
        ≡ (contains conn.remote_addr m.reported_scans
            || (not (is_local conn.remote_addr)
                && leb cfg.port_scan_threshold
                    (record_probe conn.remote_addr conn.local_port
                      (window_of cfg)
                      now
                      m.tracker).1))
  unfolding check_syn report_scan
  check_syn-reports works conn now m =
      elim (Bool-cases (contains conn.remote_addr m.reported_scans)) [
        | inl e ↦ ground arith
        | inr e ↦ ground (
          arith,
          contains-insert_set conn.remote_addr conn.remote_addr m.reported_scans,
          eq_refl conn.remote_addr,
        )
      ]

  length-bounded {ℓ} : {A : Type ℓ} (xs : List A) → length (bounded xs) ≤ 10000
  unfolding bounded
  length-bounded xs = ground arith

  trim_sets_bounds :
      (m : Monitor)
      → (trim_sets m).out.is_open ≡ true
      → (length (trim_sets m).reported_scans ≤ 10000)
        × (length (trim_sets m).reported_shell_conns ≤ 10000)
        × (length (trim_sets m).reported_susp_ports ≤ 10000)
  unfolding trim_sets
  trim_sets_bounds m h = elim (Bool-cases m.out.is_open) [
    | inl e ↦ rw e (
      length-bounded m.reported_scans,
      length-bounded m.reported_shell_conns,
      length-bounded m.reported_susp_ports,
    )
    | inr e ↦ absurd (false≢true (rw e at h))
  ]

  -- After a turn that the monitor survives, each set of what was reported has at most 10000 elements.
  pub tick_bounds :
      (sample : Sample) (m : Monitor)
      → (tick env show_addr cfg lang sample m).out.is_open ≡ true
      → (length (tick env show_addr cfg lang sample m).reported_scans ≤ 10000)
        × (length (tick env show_addr cfg lang sample m).reported_shell_conns ≤ 10000)
        × (length (tick env show_addr cfg lang sample m).reported_susp_ports ≤ 10000)
  unfolding tick
  tick_bounds sample m h =
      let heard = check_listeners env show_addr cfg lang sample.conns m in
      let scanned = check_scans env show_addr cfg lang sample heard in
      trim_sets_bounds (check_connections env show_addr cfg lang sample scanned) h
