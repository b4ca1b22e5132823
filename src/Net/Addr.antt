-- ===== src/Net/Addr.antt =====
-- Internet addresses as `std::net` has them, by their octets, and `is_local`.
use owl_sentry.Base.{
  ℕ, ◌≡◌, ◌↔◌, Bool, true, false, ◌&&◌, ◌||◌, List, [], ◌∷◌, arith, all, ◌==◌, nat_eq, list_beq,
  list_beq_iff, list_eq, pair_eq, Eq,
}

pub data IpAddr : Type 0 where
  v4 : List ℕ → IpAddr
  v6 : List ℕ → IpAddr

abbrev pub addr_beq : IpAddr → IpAddr → Bool
addr_beq (v4 a) (v4 b) = list_beq a b
addr_beq (v6 a) (v6 b) = list_beq a b
addr_beq _ _ = false

pub addr_beq_iff : (a b : IpAddr) → (addr_beq a b ≡ true) ↔ (a ≡ b)
addr_beq_iff (v4 a) (v4 b) = ground (arith, list_beq_iff a b)
addr_beq_iff (v6 a) (v6 b) = ground (arith, list_beq_iff a b)
addr_beq_iff (v4 a) (v6 b) = ground arith
addr_beq_iff (v6 a) (v4 b) = ground arith

instance abbrev pub addr_eq : Eq IpAddr
addr_eq = record { beq = addr_beq; beq_iff = addr_beq_iff }

unfoldable pub is_v4_loopback : List ℕ → Bool
is_v4_loopback [] = false
is_v4_loopback (b ∷ bs) = b == 127

unfoldable pub is_v6_loopback : List ℕ → Bool
is_v6_loopback [] = false
is_v6_loopback (b ∷ []) = b == 1
is_v6_loopback (b ∷ c ∷ bs) = b == 0 && is_v6_loopback (c ∷ bs)

unfoldable pub is_unspecified : List ℕ → Bool
is_unspecified bs = all (λ b. b == 0) bs

unfoldable pub is_local : IpAddr → Bool
unfolding is_v4_loopback is_v6_loopback is_unspecified
is_local (v4 bs) = is_v4_loopback bs || is_unspecified bs
is_local (v6 bs) = is_v6_loopback bs || is_unspecified bs
