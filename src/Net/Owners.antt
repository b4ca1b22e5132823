-- ===== src/Net/Owners.antt =====
-- Which process the table of sockets names.
use mathlib.Core.Option.{some-injective}
use owl_sentry.Base.{
  ℕ, ◌⊎◌, ◌≡◌, refl, sym, inl, inr, Bool-cases, Option-cases, Option, none, some, List, [], ◌∷◌,
  ◌>>=◌, or_default, In, ◌==◌, nat_eq, nat_beq_iff, list_eq, pair_eq, lookup, insert, lookup-insert,
}
use owl_sentry.Text.{Text}
use owl_sentry.Text.Numbers.{parse_i32}
use owl_sentry.Net.Reading.{
  socket_inode_owners, add_entries, add_entry, add_links, inode_of, comm_of, ProcEntry, Owner,
}

-- One of the links names the inode.
abbrev pub LinksTo : ℕ → List (Option Text) → Type 0
LinksTo inode targets = (t : Text) × In (some t) targets × (inode_of t ≡ some inode)

-- The entry is of this process, with this `comm`, and one of its descriptors is the socket.
abbrev pub Owns : ProcEntry → Owner → ℕ → Type 0
Owns e owner inode =
    ((e.name >>= parse_i32) ≡ some owner.0)
    × (comm_of e ≡ owner.1)
    × LinksTo inode (or_default [] e.fds)

more_links :
    (inode : ℕ) (t : Option Text) (targets : List (Option Text))
    → LinksTo inode targets
    → LinksTo inode (t ∷ targets)
more_links inode t targets (u, m, e) = (u, inr m, e)

lookup-add_links :
    (owner v : Owner) (inode : ℕ) (targets : List (Option Text)) (owners : List (ℕ × Owner))
    → lookup inode (add_links owner targets owners) ≡ some v
    → ((v ≡ owner) × LinksTo inode targets) ⊎ (lookup inode owners ≡ some v)
unfolding add_links
lookup-add_links owner v inode [] owners h = inr h
lookup-add_links owner v inode (none ∷ targets) owners h =
    elim (lookup-add_links owner v inode targets owners h) [
      | inl k ↦ inl (k.0, more_links inode none targets k.1)
      | inr k ↦ inr k
    ]
lookup-add_links owner v inode (some t ∷ targets) owners h = elim (Option-cases (inode_of t)) [
  | inl e ↦ elim (lookup-add_links owner v inode targets owners (rw (add_links, e) at h)) [
    | inl k ↦ inl (k.0, more_links inode (some t) targets k.1)
    | inr k ↦ inr k
  ]
  | inr (i, e) ↦
      elim (lookup-add_links owner v inode targets (insert i owner owners)
        (rw (add_links, e) at h)) [
          | inl k ↦ inl (k.0, more_links inode (some t) targets k.1)
          | inr k ↦ elim (Bool-cases (inode == i)) [
            | inl same ↦ inl (
              some-injective _ _ (sym (rw (lookup-insert i inode owner owners, same) at k)),
              (t, inl refl, rw ((nat_beq_iff inode i).0 same) e),
            )
            | inr other ↦ inr (rw (lookup-insert i inode owner owners, other) at k)
          ]
        ]
]

lookup-add_entry :
    (e : ProcEntry) (v : Owner) (inode : ℕ) (owners : List (ℕ × Owner))
    → lookup inode (add_entry e owners) ≡ some v
    → Owns e v inode ⊎ (lookup inode owners ≡ some v)
unfolding add_entry
lookup-add_entry e v inode owners h = elim (Option-cases (e.name >>= parse_i32)) [
  | inl n ↦ inr (rw (add_entry, n) at h)
  | inr (pid, n) ↦
      elim (lookup-add_links (pid, comm_of e) v inode (or_default [] e.fds) owners
        (rw (add_entry, n) at h)) [ inl k ↦ inl (rw k.0 (n, refl, k.1)) | inr k ↦ inr k ]
]

lookup-add_entries :
    (es : List ProcEntry) (v : Owner) (inode : ℕ) (owners : List (ℕ × Owner))
    → lookup inode (add_entries es owners) ≡ some v
    → ((e : ProcEntry) × In e es × Owns e v inode) ⊎ (lookup inode owners ≡ some v)
unfolding add_entries
lookup-add_entries [] v inode owners h = inr h
lookup-add_entries (e ∷ es) v inode owners h =
    elim (lookup-add_entries es v inode (add_entry e owners) h) [
      | inl (f, m, k) ↦ inl (f, inr m, k)
      | inr k ↦ elim (lookup-add_entry e v inode owners k) [
        | inl o ↦ inl (e, inl refl, o)
        | inr l ↦ inr l
      ]
    ]

-- A process that the table names as the owner of a socket has an entry in /proc that could be
-- listed, with this number and this `comm`, one of whose descriptors links to the socket.
pub socket_inode_owners_sound :
    (entries : List ProcEntry) (inode : ℕ) (owner : Owner)
    → lookup inode (socket_inode_owners (some entries)) ≡ some owner
    → (e : ProcEntry) × In e entries × Owns e owner inode
unfolding socket_inode_owners lookup
socket_inode_owners_sound entries inode owner h =
    elim (lookup-add_entries entries owner inode [] h) [ inl k ↦ k | inr k ↦ absurd (cc k) ]
