-- ===== src/Server/Access.antt =====
-- Who can connect to the socket that `serve` has prepared, by the permission bits of Unix.
use mathlib.Core.Path.{subst}
use mathlib.Core.Bool.{false≢true}
use owl_sentry.Base.{
  ℕ, ◌/◌, ◌%◌, ◌≡◌, refl, sym, ◌∙◌, ◌≢◌, ◌↔◌, inl, inr, Bool, true, false, ◌&&◌, none, some, List,
  arith, if◌then◌else◌, Bool-cases, ◌==◌, nat_eq, list_eq, pair_eq, contains,
}
use owl_sentry.Text.{Text}
use owl_sentry.Server.Socket.{
  ◌>>=◌, serve, has_parent, apply_socket_permissions, apply_calls, but_last, remove_stale, bind,
  restrict, set_dir_mode, Setup, ready, stops, Inode, Disk, Answers, GroupLookup, found, missing,
  lookup_error, Removal, removed, not_found, removal_error,
}

pub record User : Type 0 where
  pub uid : ℕ
  pub groups : List ℕ

-- The bit `b` (4 to read, 2 to write, 1 to search) of the last digit of a mode
abbrev has_bit : ℕ → ℕ → Bool
has_bit b mode = mode / b % 2 == 1

-- The digit for the owner, for the group or for the others; root is let through.
abbrev allows : Inode → User → ℕ → Bool
allows f u b =
    if u.uid == 0
    then true
    else if u.uid == f.uid
    then has_bit b (f.mode / 64)
    else if contains f.gid u.groups
    then has_bit b (f.mode / 8)
    else has_bit b f.mode

-- Searching the directory of the socket and writing to the socket
enters : Disk → User → Bool
enters d u = elim d.socket [ none ↦ false | some s ↦ allows d.dir u 1 && allows s u 2 ]

-- Connecting searches the directories above as well, which `serve` does not change: `above` says
-- who may search all of them.
pub can_connect : (above : User → Bool) → Disk → User → Bool
can_connect above d u = above u && enters d u

-- The socket's group, if the group of the configuration was found
abbrev pub IsGroupMember : GroupLookup → User → Type 0
IsGroupMember (found g) u = contains g u.groups ≡ true
IsGroupMember missing u = ⊥
IsGroupMember lookup_error u = ⊥

-- Users other than root connect if they are of the directory's group and of the socket's.
abbrev Restricted : Inode → GroupLookup → Setup → Type 0
Restricted dir g (stops d) = Unit
Restricted dir g (ready d) =
    (u : User)
    → u.uid ≢ 0
    → (enters d u ≡ true) ↔ ((contains dir.gid u.groups ≡ true) × IsGroupMember g u)

both_groups :
    (dir : Inode) (g : ℕ) (u : User)
    → dir.uid ≡ 0
    → u.uid ≢ 0
    → (enters
          (record {
            dir = record dir { mode = 0o750 };
            socket = some (record { uid = 0; gid = g; mode = 0o660 });
          })
          u
        ≡ true)
      ↔ ((contains dir.gid u.groups ≡ true) × (contains g u.groups ≡ true))
unfolding enters
both_groups dir g u h n =
    let z : (u.uid == 0) ≡ false = ground arith in
    rw (h, z)
      (elim (Bool-cases (contains dir.gid u.groups)) [
        | inl e ↦ elim (Bool-cases (contains g u.groups)) [
          | inl f ↦ rw (e, f) (λ x. (refl, refl), λ x. refl)
          | inr f ↦ rw (e, f) (λ x. absurd (false≢true x), λ x. absurd (false≢true x.1))
        ]
        | inr e ↦ rw e (λ x. absurd (false≢true x), λ x. absurd (false≢true x.0))
      ])

refused : (a b : Bool) → (a && (if b then false else false)) ≡ false
refused true true = refl
refused true false = refl
refused false b = refl

nobody :
    (dir bound : Inode) (u : User)
    → bound.uid ≡ 0
    → u.uid ≢ 0
    → enters
        (record {
          dir = record dir { mode = 0o750 };
          socket = some (record bound { mode = 0o600 });
        })
        u
      ≡ false
unfolding enters
nobody dir bound u h n =
    let z : (u.uid == 0) ≡ false = ground arith in
    rw (h, z) (refused _ (contains bound.gid u.groups))

no_member : {A : Type 0} (b : Bool) → b ≡ false → (b ≡ true) ↔ (A × ⊥)
no_member b h = (λ e. absurd (false≢true (sym h ∙ e)), λ x. absurd x.1)

restrict-Restricted :
    (g : GroupLookup) (chown_ok chmod_ok : Bool) (dir bound : Inode)
    → dir.uid ≡ 0
    → bound.uid ≡ 0
    → Restricted dir g (
        restrict
          (apply_socket_permissions g chown_ok chmod_ok)
          (record { dir = record dir { mode = 0o750 }; socket = some bound }))
unfolding apply_socket_permissions apply_calls but_last
restrict-Restricted (found g) true true dir bound h k = λ u n. both_groups dir g u h n
restrict-Restricted (found g) true false dir bound h k = tt
restrict-Restricted (found g) false ok dir bound h k = tt
restrict-Restricted missing ok true dir bound h k = λ u n. no_member _ (nobody dir bound u k n)
restrict-Restricted missing ok false dir bound h k = tt
restrict-Restricted lookup_error ok true dir bound h k = λ u n. no_member _ (nobody dir bound u k n)
restrict-Restricted lookup_error ok false dir bound h k = tt

bind-Restricted :
    (removal : Removal) (bind_ok : Bool) (bound : Inode) (g : GroupLookup)
    (chown_ok chmod_ok : Bool) (d : Disk)
    → d.dir.uid ≡ 0
    → bound.uid ≡ 0
    → Restricted d.dir g (
        remove_stale removal (set_dir_mode d)
        >>= bind bind_ok bound
        >>= restrict (apply_socket_permissions g chown_ok chmod_ok))
bind-Restricted removal_error bind_ok bound g chown_ok chmod_ok d h k = tt
bind-Restricted removed false bound g chown_ok chmod_ok d h k = tt
bind-Restricted not_found false bound g chown_ok chmod_ok d h k = tt
bind-Restricted removed true bound g chown_ok chmod_ok d h k =
    restrict-Restricted g chown_ok chmod_ok d.dir bound h k
bind-Restricted not_found true bound g chown_ok chmod_ok d h k =
    restrict-Restricted g chown_ok chmod_ok d.dir bound h k

serve-Restricted :
    (path : Text) (r : Answers) (d : Disk)
    → has_parent path ≡ true
    → d.dir.uid ≡ 0
    → r.bound.uid ≡ 0
    → Restricted d.dir r.group (serve path r d)
unfolding serve
serve-Restricted path r d h k b = elim (Bool-cases (r.create_dir_ok && r.chmod_dir_ok)) [
  | inl c ↦
      rw (h, c) (bind-Restricted r.removal r.bind_ok r.bound r.group r.chown_ok r.chmod_ok d k b)
  | inr c ↦ rw (h, c) tt
]

-- If `serve` is ready to accept, by a directory and a socket that belong to root: a user other than
-- root can connect exactly if the user may search the directories above that one, the group of the
-- configuration was found, and the user is of this group and of the group of the directory, which
-- `serve` leaves as it is.
pub can_connect_iff :
    (above : User → Bool) (path : Text) (r : Answers) (before after : Disk) (u : User)
    → has_parent path ≡ true
    → before.dir.uid ≡ 0
    → r.bound.uid ≡ 0
    → serve path r before ≡ ready after
    → u.uid ≢ 0
    → (can_connect above after u ≡ true)
      ↔ ((above u ≡ true) × (contains before.dir.gid u.groups ≡ true) × IsGroupMember r.group u)
unfolding can_connect
can_connect_iff above path r before after u h k b e n =
    let i = subst (Restricted before.dir r.group) e (serve-Restricted path r before h k b) u n in
    elim (Bool-cases (above u)) [
      | inl a ↦ rw a (λ c. (refl, (i.0 c).0, (i.0 c).1), λ c. i.1 (c.1, c.2))
      | inr a ↦ rw a (λ c. absurd (false≢true c), λ c. absurd (false≢true c.0))
    ]
