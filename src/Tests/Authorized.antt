-- ===== src/Tests/Authorized.antt =====
-- Tests of a worker's authorized managers.
use balthazar.Prelude.{
  ℕ, ◌-◌, ◌==◌, ==_iff, ◌≡◌, ◌↔◌, ◌⊎◌, refl, true, false, ltb, Option, none, some, [], ◌∷◌,
  is_empty, if◌then◌else◌,
}
use balthazar.Ids.{Multihash, PeerId}
use balthazar.Authorization.{
  Part, p2p, other_part, Multiaddrs, MultiaddrsLaws, is_manager_authorized,
}
use balthazar.Authorization.Matching.{Any, StandsFor, is_manager_authorized_iff}

-- Address 0 has no part, those below 100 are hosts, and from 100 on the peer 7 follows a host.
abbrev pub pop_number : ℕ → ℕ × Option Part
pop_number n =
    if n == 0
    then (0, none)
    else if ltb n 100
    then (0, some other_part)
    else (n - 100, some (p2p (record { code = 27; digest = 7 ∷ [] })))

abbrev pub peer_of : Multihash → Option PeerId
peer_of h = some 7

abbrev pub numbers : Multiaddrs
numbers = record {
  Addr = ℕ;
  pop = pop_number;
  is_nil = λ n. n == 0;
  addr_eq = ◌==◌;
  peer_from_multihash = peer_of;
}

numbers-MultiaddrsLaws : MultiaddrsLaws numbers
numbers-MultiaddrsLaws = record { addr_eq_iff = ==_iff }

is_manager_authorized_iff_example :
    (is_manager_authorized numbers (5 ∷ 103 ∷ []) (some 7) (3 ∷ []) ≡ true) ↔ (
      (is_empty {A = ℕ} (5 ∷ 103 ∷ []) ≡ true)
      ⊎ Any
          (λ a. StandsFor numbers numbers-MultiaddrsLaws (some 7) (3 ∷ []) a (pop_number a))
          (5 ∷ 103 ∷ []))
is_manager_authorized_iff_example =
    is_manager_authorized_iff numbers numbers-MultiaddrsLaws (5 ∷ 103 ∷ []) (some 7) (3 ∷ [])

-- The peer at one of its hosts, and not at another.
there : is_manager_authorized numbers (5 ∷ 103 ∷ []) (some 7) (3 ∷ []) ≡ true
unfolding is_manager_authorized
there = refl

elsewhere : is_manager_authorized numbers (5 ∷ 103 ∷ []) (some 7) (4 ∷ []) ≡ false
unfolding is_manager_authorized
elsewhere = refl
