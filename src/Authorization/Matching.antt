-- ===== src/Authorization/Matching.antt =====
-- `is_manager_authorized` of balthernet/src/config.rs against a description of the addresses it takes.
use balthazar.Prelude.{
  ◌==◌, ◌≡◌, ◌↔◌, ◌⊎◌, refl, ap, ◌∙◌, Bool, true, false, ◌||◌, Option, none, some, List, [], ◌∷◌,
  any, is_empty, inl, inr, ==_iff, arith, Bool-cases,
}
use balthazar.Ids.{Multihash, PeerId}
use balthazar.Authorization.{
  Part, p2p, other_part, Multiaddrs, MultiaddrsLaws, matches_peer, matches, is_manager_authorized,
}

-- Of one element at least.
abbrev pub Any {ℓ} : {A : Type ℓ} → (A → Type 0) → List A → Type 0
Any P [] = ⊥
Any P (x ∷ xs) = P x ⊎ Any P xs

any-Any {ℓ} :
    {A : Type ℓ} (p : A → Bool) (P : A → Type 0) (xs : List A)
    → ((x : A) → (p x ≡ true) ↔ P x)
    → (any p xs ≡ true) ↔ Any P xs
any-Any p P [] h = (λ e. cc, λ e. absurd e)
any-Any p P (x ∷ xs) h = (
  λ e. elim (Bool-cases (p x)) [
    | inl y ↦ inl ((h x).0 y)
    | inr n ↦ inr ((any-Any p P xs h).0 (ground arith))
  ],
  λ e. elim e [
    | inl y ↦ ground (arith, (h x).1 y)
    | inr ys ↦ ground (arith, (any-Any p P xs h).1 ys)
  ],
)

module _ (m : Multiaddrs) (laws : MultiaddrsLaws m) where
  -- A peer that ends the address, and what stands before it.
  abbrev pub EndsWith : m.Addr × Option Part → m.Addr → Multihash → Type 0
  EndsWith popped rest h = popped ≡ (rest, some (p2p h))

  -- Whether one authorized address, of which `pop` gives this, stands for a manager with this peer
  -- id, if it is known, at these addresses: either it ends with that peer, and what stands before
  -- is empty or one of the addresses, or it ends with no peer and is one of the addresses.
  abbrev pub StandsFor : Option PeerId → List m.Addr → m.Addr → m.Addr × Option Part → Type 0
  StandsFor peer addrs a popped =
      ((rest : m.Addr) × (h : Multihash) × (p : PeerId) × EndsWith popped rest h
        × (peer ≡ some p)
        × (m.peer_from_multihash h ≡ some p)
        × ((m.is_nil rest ≡ true) ⊎ Any (λ b. rest ≡ b) addrs))
      ⊎ (((rest : m.Addr) (h : Multihash) → ¬ EndsWith popped rest h) × Any (λ b. a ≡ b) addrs)

  among :
      (addrs : List m.Addr) (a : m.Addr)
      → (any (λ b. m.addr_eq a b) addrs ≡ true) ↔ Any (λ b. a ≡ b) addrs
  among addrs a = any-Any (λ b. m.addr_eq a b) (λ b. a ≡ b) addrs (λ b. laws.addr_eq_iff a b)

  or_iff : (a b : Bool) {B : Type 0} → (b ≡ true) ↔ B → ((a || b) ≡ true) ↔ ((a ≡ true) ⊎ B)
  or_iff true b h = (λ e. inl refl, λ e. refl)
  or_iff false b h = (λ e. inr (h.0 e), λ e. elim e [ inl x ↦ cc | inr y ↦ h.1 y ])

  peer-StandsFor :
      (peer : Option PeerId) (addrs : List m.Addr) (rest : m.Addr) (q : Option PeerId)
      → (matches_peer m peer addrs rest q ≡ true) ↔ (
          (p : PeerId) × (peer ≡ some p)
          × (q ≡ some p)
          × ((m.is_nil rest ≡ true) ⊎ Any (λ b. rest ≡ b) addrs))
  unfolding matches_peer
  peer-StandsFor none addrs rest q = (λ e. cc, λ (p, is, is', at). cc)
  peer-StandsFor (some p) addrs rest none = (λ e. cc, λ (p', is, is', at). cc)
  peer-StandsFor (some p) addrs rest (some q) =
      let at_iff = or_iff (m.is_nil rest) (any (λ b. m.addr_eq rest b) addrs) (among addrs rest) in
      (
        λ e. elim (Bool-cases (q == p)) [
          | inl y ↦ (p, refl, ap some ((==_iff q p).0 y), at_iff.0 (ground arith))
          | inr n ↦ absurd (ground arith)
        ],
        λ (p', is, is', at). let same : q ≡ p = cc in rw ((==_iff q p).1 same) (at_iff.1 at),
      )

  matches-StandsFor :
      (peer : Option PeerId) (addrs : List m.Addr) (a : m.Addr) (r : m.Addr × Option Part)
      → (matches m peer addrs a r ≡ true) ↔ StandsFor peer addrs a r
  unfolding matches
  matches-StandsFor peer addrs a (rest, none) = (
    λ e. inr (λ rest' h k. cc, (among addrs a).0 e),
    λ e. elim e [
      | inl (rest', h, p, k, is, is', at) ↦ absurd cc
      | inr (n, x) ↦ (among addrs a).1 x
    ],
  )
  matches-StandsFor peer addrs a (rest, some other_part) = (
    λ e. inr (λ rest' h k. cc, (among addrs a).0 e),
    λ e. elim e [
      | inl (rest', h, p, k, is, is', at) ↦ absurd cc
      | inr (n, x) ↦ (among addrs a).1 x
    ],
  )
  matches-StandsFor peer addrs a (rest, some (p2p h)) =
      let iff = peer-StandsFor peer addrs rest (m.peer_from_multihash h) in
      (
        λ e. let (p, is, is', at) = iff.0 e in inl (rest, h, p, refl, is, is', at),
        λ e. elim e [
          | inl (rest', h', p, k, is, is', at) ↦
              let same : rest ≡ rest' = cc in
              let same' : h ≡ h' = cc in
              iff.1 (p, is, ap m.peer_from_multihash same' ∙ is', rw same at)
          | inr (n, x) ↦ absurd (n rest h refl)
        ],
      )

  -- A worker takes a manager exactly if it has no list of authorized addresses, or one address of
  -- the list stands for the manager: either the address ends with a peer, which is the manager's,
  -- known, and what stands before it is empty or one of the manager's addresses; or it ends with no
  -- peer and is one of the manager's addresses. It supposes that the equality of addresses decides
  -- whether they are the same. (A peer elsewhere in the address is not checked, unlike what the
  -- documentation of the field says.)
  pub is_manager_authorized_iff :
      (authorized : List m.Addr) (peer : Option PeerId) (addrs : List m.Addr)
      → (is_manager_authorized m authorized peer addrs ≡ true)
        ↔ ((is_empty authorized ≡ true) ⊎ Any (λ a. StandsFor peer addrs a (m.pop a)) authorized)
  unfolding is_manager_authorized
  is_manager_authorized_iff [] peer addrs = (λ e. inl refl, λ e. refl)
  is_manager_authorized_iff (a ∷ as') peer addrs =
      or_iff false (any (λ b. matches m peer addrs b (m.pop b)) (a ∷ as')) (
        any-Any (λ b. matches m peer addrs b (m.pop b)) (λ b. StandsFor peer addrs b (m.pop b))
          (a ∷ as') (λ b. matches-StandsFor peer addrs b (m.pop b)))
