-- ===== src/Authorization.antt =====
-- Which managers a worker takes: `is_manager_authorized` of balthernet/src/config.rs. The crate
-- `libp2p` is the parameter `Multiaddrs`.
pub mod Matching
use balthazar.Prelude.{
  ℕ, ◌==◌, ◌≡◌, ◌↔◌, Bool, true, false, ◌&&◌, ◌||◌, Option, none, some, List, any, is_empty,
  if◌then◌else◌,
}
use balthazar.Ids.{Multihash, PeerId}

-- The parts of an address that the code tells apart.
pub data Part : Type 0 where
  p2p : Multihash → Part
  other_part : Part

-- What the program calls of `libp2p`: an address, without its last part and with it by itself; whether
-- it has no part; whether two are equal; and the peer of a multihash.
pub record Multiaddrs : Type 1 where
  pub Addr : Type 0
  pub pop : Addr → Addr × Option Part
  pub is_nil : Addr → Bool
  pub addr_eq : Addr → Addr → Bool
  pub peer_from_multihash : Multihash → Option PeerId

-- What it documents of them.
pub record MultiaddrsLaws (m : Multiaddrs) : Type 0 where
  pub addr_eq_iff : (a b : m.Addr) → (m.addr_eq a b ≡ true) ↔ (a ≡ b)

module _ (m : Multiaddrs) where
  -- An authorized address that ends with a peer.
  matches_peer : Option PeerId → List m.Addr → m.Addr → Option PeerId → Bool
  matches_peer none addrs rest q = false
  matches_peer (some p) addrs rest none = false
  matches_peer (some p) addrs rest (some q) =
      (q == p) && (m.is_nil rest || any (λ addr. m.addr_eq rest addr) addrs)

  -- The closure of `any`, over what `pop` gives.
  unfoldable pub matches : Option PeerId → List m.Addr → m.Addr → m.Addr × Option Part → Bool
  unfolding matches_peer
  matches peer addrs a (rest, none) = any (λ addr. m.addr_eq a addr) addrs
  matches peer addrs a (rest, some other_part) = any (λ addr. m.addr_eq a addr) addrs
  matches peer addrs a (rest, some (p2p h)) = matches_peer peer addrs rest (m.peer_from_multihash h)

  -- `is_manager_authorized`, over the worker's `authorized_managers`
  unfoldable pub is_manager_authorized : List m.Addr → Option PeerId → List m.Addr → Bool
  unfolding matches
  is_manager_authorized authorized peer addrs =
      if is_empty authorized then true else any (λ a. matches peer addrs a (m.pop a)) authorized
