-- ===== src/Server/Socket.antt =====
-- crates/owlsentry-daemon/src/ipc_server.rs: `apply_socket_permissions`, and `serve` up to its
-- loop, with what its calls do to the files. The operations on the
-- socket's file are listed in the order in which they are made; what each returns comes from outside.
use mathlib.Core.List.{reverse}
use mathlib.Core.Option
use owl_sentry.Base.{
  ℕ, Bool, true, false, not, ◌&&◌, Option, none, some, List, [], ◌∷◌, ◌==◌, if◌then◌else◌, nat_eq,
  list_eq, pair_eq,
}
use owl_sentry.Text.{Text}
use owl_sentry.FilePath.{component_eq, components, root_dir}

-- `nix::unistd::Group::from_name`
pub data GroupLookup : Type 0 where
  found : ℕ → GroupLookup
  missing : GroupLookup
  lookup_error : GroupLookup

pub data FileCall : Type 0 where
  chown : ℕ → ℕ → FileCall
  chmod : ℕ → FileCall

-- The calls made, and whether the function returned `Ok`.
pub record Outcome : Type 0 where
  pub calls : List FileCall
  pub accepted : Bool

-- `chown_ok` and `chmod_ok` are the results of the calls. A failed call returns early.
unfoldable pub apply_socket_permissions : GroupLookup → Bool → Bool → Outcome
apply_socket_permissions (found gid) true chmod_ok = record {
  calls = chown 0 gid ∷ chmod 0o660 ∷ [];
  accepted = chmod_ok;
}
apply_socket_permissions (found gid) false chmod_ok = record {
  calls = chown 0 gid ∷ [];
  accepted = false;
}
apply_socket_permissions missing chown_ok chmod_ok = record {
  calls = chmod 0o600 ∷ [];
  accepted = chmod_ok;
}
apply_socket_permissions lookup_error chown_ok chmod_ok = record {
  calls = chmod 0o600 ∷ [];
  accepted = chmod_ok;
}

-- A file's owner, group and mode
pub record Inode : Type 0 where
  pub uid : ℕ
  pub gid : ℕ
  pub mode : ℕ

-- The socket's directory, as `create_dir_all` finds it or makes it, and the socket if there is one
pub record Disk : Type 0 where
  pub dir : Inode
  pub socket : Option Inode

-- `serve` is ready to accept, or has returned an error, with the files as they are then.
pub data Setup : Type 0 where
  ready : Disk → Setup
  stops : Disk → Setup

infixl 5 ◌>>=◌
abbrev pub ◌>>=◌ : Setup → (Disk → Setup) → Setup
ready d >>= f = f d
stops d >>= f = stops d

-- What `remove_file` returns for the stale socket
pub data Removal : Type 0 where
  removed : Removal
  not_found : Removal
  removal_error : Removal

-- What the system's calls return, and the file that `bind` makes.
pub record Answers : Type 0 where
  pub create_dir_ok : Bool
  pub chmod_dir_ok : Bool
  pub removal : Removal
  pub bind_ok : Bool
  pub bound : Inode
  pub group : GroupLookup
  pub chown_ok : Bool
  pub chmod_ok : Bool

abbrev pub set_dir_mode : Disk → Disk
set_dir_mode d = record d { dir = record d.dir { mode = 0o750 } }

abbrev pub prepare_dir : Bool → Bool → Disk → Setup
prepare_dir create_ok chmod_ok d = if create_ok && chmod_ok then ready (set_dir_mode d) else stops d

abbrev pub remove_stale : Removal → Disk → Setup
remove_stale removed d = ready (record d { socket = none })
remove_stale not_found d = ready d
remove_stale removal_error d = stops d

abbrev pub bind : Bool → Inode → Disk → Setup
bind ok bound d = if ok then ready (record d { socket = some bound }) else stops d

abbrev pub apply_call : FileCall → Inode → Inode
apply_call (chown u g) f = record f { uid = u; gid = g }
apply_call (chmod m) f = record f { mode = m }

unfoldable pub apply_calls : List FileCall → Inode → Inode
apply_calls [] f = f
apply_calls (c ∷ cs) f = apply_calls cs (apply_call c f)

-- The calls that succeeded when the last did not
unfoldable pub but_last : List FileCall → List FileCall
but_last [] = []
but_last (c ∷ []) = []
but_last (c ∷ d ∷ cs) = c ∷ but_last (d ∷ cs)

abbrev pub restrict : Outcome → Disk → Setup
restrict o d =
    if o.accepted
    then ready (record d { socket = Option.map (apply_calls o.calls) d.socket })
    else stops (record d { socket = Option.map (apply_calls (but_last o.calls)) d.socket })

-- `Path::parent` of the socket's path is there.
unfoldable pub has_parent : Text → Bool
unfolding components
has_parent path = elim (reverse (components path)) [ [] ↦ false | c ∷ cs ↦ not (c == root_dir) ]

-- `serve`, up to its loop
unfoldable pub serve : Text → Answers → Disk → Setup
unfolding apply_socket_permissions apply_calls but_last has_parent
serve socket_path r d =
    (if has_parent socket_path then prepare_dir r.create_dir_ok r.chmod_dir_ok d else ready d)
    >>= remove_stale r.removal
    >>= bind r.bind_ok r.bound
    >>= restrict (apply_socket_permissions r.group r.chown_ok r.chmod_ok)
