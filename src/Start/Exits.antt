-- ===== src/Start/Exits.antt =====
-- What `main` leaves behind when it ends, and what it does with the option to check only.
use owl_sentry.Base.{
  ◌≡◌, refl, ◌↔◌, inl, inr, Bool, true, false, Bool-cases, List, [], ◌∷◌, ◌++◌, if◌then◌else◌, All,
  All-append, All-In, In-append_right, In-append_cases, In, nat_eq, list_eq, pair_eq,
}
use owl_sentry.Text.{Text}
use owl_sentry.Config.Types.{DaemonConfig}
use owl_sentry.Config.Rules.{Rules}
use owl_sentry.Start.{
  IpcServer, load_config, main, tasks, after_init, after_loading, warning, Args, Outside, Effect,
  spawns, warns_no_config, says_valid, aborts_ipc, removes, warns_socket, Cleanup, removed, missing,
  refused, clean_socket, Task, ipc_server, Result, good, bad,
}
use owl_sentry.Start.Effects.{All-tasks}

-- Neither a task nor a file is touched.
abbrev pub IsHarmless : Effect → Type 0
IsHarmless (spawns t) = ⊥
IsHarmless (removes path) = ⊥
IsHarmless warns_socket = ⊥
IsHarmless _ = Unit

warning-IsHarmless : (b : Bool) → All IsHarmless (if b then [] else warns_no_config ∷ [])
warning-IsHarmless true = tt
warning-IsHarmless false = (tt, tt)

after_loading-checks :
    (o : Outside) (args : Args) (r : Result (DaemonConfig × Rules))
    → args.check_config ≡ true
    → All IsHarmless (after_loading o args r).effects
      × (((after_loading o args r).exit ≡ good tt) ↔ (v : DaemonConfig × Rules) × (r ≡ good v))
after_loading-checks o args (bad e) h = (tt, (λ k. absurd (cc k), λ v. absurd (cc v.1)))
after_loading-checks o args (good (c, rules)) h =
    rw h ((tt, tt), (λ k. ((c, rules), refl), λ k. refl))

-- With the option to check only, `main` spawns no task and removes no file, and it succeeds exactly if
-- the configuration and the rules can be loaded.
pub main-checks :
    (o : Outside) (args : Args)
    → args.check_config ≡ true
    → All IsHarmless (main o args).effects
      × (((main o args).exit ≡ good tt)
          ↔ (v : DaemonConfig × Rules) × (load_config o args ≡ good v))
unfolding main
main-checks o args h =
    let r = after_loading-checks o args (load_config o args) h in
    (All-append IsHarmless (warning o args) _ (warning-IsHarmless (o.exists args.config)) r.0, r.1)

abbrev ServesAt : Text → Effect → Type 0
ServesAt path (spawns (ipc_server s)) = s.socket_path ≡ path
ServesAt path _ = Unit

tasks-ServesAt :
    (c : DaemonConfig) (rules : Rules) → All (ServesAt c.general.socket_path) (tasks c rules)
tasks-ServesAt c rules =
    All-tasks (ServesAt c.general.socket_path) c rules _ refl tt tt tt tt tt tt refl

no_task : (b : Bool) (t : Task) → In (spawns t) (if b then [] else warns_no_config ∷ []) → ⊥
no_task true t m = m
no_task false t (inl e) = absurd (cc e)
no_task false t (inr m) = m

-- What the effects hold of a socket, for the answer that its removal has.
abbrev pub Cleaned : Cleanup → Text → List Effect → Type 0
Cleaned removed path es = In (removes path) es
Cleaned missing path es = Unit
Cleaned refused path es = In warns_socket es

Cleaned-append_right :
    (r : Cleanup) (path : Text) (es fs : List Effect)
    → Cleaned r path fs
    → Cleaned r path (es ++ fs)
Cleaned-append_right removed path es fs h = In-append_right (removes path) es fs h
Cleaned-append_right missing path es fs h = tt
Cleaned-append_right refused path es fs h = In-append_right warns_socket es fs h

clean_socket-Cleaned :
    (r : Cleanup) (path : Text) → Cleaned r path (aborts_ipc ∷ clean_socket r path)
clean_socket-Cleaned removed path = inr (inl refl)
clean_socket-Cleaned missing path = tt
clean_socket-Cleaned refused path = inr (inl refl)

clean_socket-ServesAt : (r : Cleanup) (path at : Text) → All (ServesAt at) (clean_socket r path)
clean_socket-ServesAt removed path at = (tt, tt)
clean_socket-ServesAt missing path at = tt
clean_socket-ServesAt refused path at = (tt, tt)

after_init-Cleaned :
    (o : Outside) (c : DaemonConfig) (rules : Rules) (r : Result Text) (s : IpcServer)
    → (after_init o c rules r).exit ≡ good tt
    → In (spawns (ipc_server s)) (after_init o c rules r).effects
    → Cleaned (o.remove_file s.socket_path) s.socket_path (after_init o c rules r).effects
after_init-Cleaned o c rules (bad e) s h m = absurd m
after_init-Cleaned o c rules (good filter) s h m = elim (Bool-cases o.sigterm_ok) [
  | inl e ↦
      let path = c.general.socket_path in
      let last = aborts_ipc ∷ clean_socket (o.remove_file path) path in
      let all =
        All-append (ServesAt path) (tasks c rules) last (tasks-ServesAt c rules)
          (tt, clean_socket-ServesAt (o.remove_file path) path path) in
      let same = All-In (ServesAt path) (spawns (ipc_server s)) _ all (rw e at m) in
      rw (e, same)
        (Cleaned-append_right (o.remove_file path) path (tasks c rules) last
          (clean_socket-Cleaned (o.remove_file path) path))
  | inr e ↦ absurd (cc (rw e at h))
]

after_loading-Cleaned :
    (o : Outside) (args : Args) (r : Result (DaemonConfig × Rules)) (s : IpcServer)
    → (after_loading o args r).exit ≡ good tt
    → In (spawns (ipc_server s)) (after_loading o args r).effects
    → Cleaned (o.remove_file s.socket_path) s.socket_path (after_loading o args r).effects
after_loading-Cleaned o args (bad e) s h m = absurd m
after_loading-Cleaned o args (good (c, rules)) s h m = elim (Bool-cases args.check_config) [
  | inl e ↦ absurd (says_only s (rw e at m))
  | inr e ↦ rw e (after_init-Cleaned o c rules _ s (rw e at h) (rw e at m))
]
  where
    says_only : (s : IpcServer) → In (spawns (ipc_server s)) (says_valid ∷ []) → ⊥
    says_only s (inl e) = absurd (cc e)
    says_only s (inr k) = k

-- Whenever `main` succeeds, it has removed the socket of every server that it spawned, or it has
-- found no file there, or it has warned that the file cannot be removed.
pub main-cleans :
    (o : Outside) (args : Args) (s : IpcServer)
    → (main o args).exit ≡ good tt
    → In (spawns (ipc_server s)) (main o args).effects
    → Cleaned (o.remove_file s.socket_path) s.socket_path (main o args).effects
unfolding main
main-cleans o args s h m = elim (In-append_cases (spawns (ipc_server s)) (warning o args) _ m) [
  | inl k ↦ absurd (no_task (o.exists args.config) (ipc_server s) k)
  | inr k ↦
      Cleaned-append_right (o.remove_file s.socket_path) s.socket_path (warning o args) _
        (after_loading-Cleaned o args (load_config o args) s h k)
]
