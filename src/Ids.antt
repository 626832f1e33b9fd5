-- ===== src/Ids.antt =====
-- Identifiers: `HashId`, `JobId`, `TaskId` and `Address` of balthamisc/src/job.rs.
-- The crates `multihash`, `sha3` and `libp2p` are the parameter `Formats`.
pub mod HashId
use balthazar.Prelude.{ℕ, ◌<◌, ◌≡◌, Bool, true, Option, some, List, Bytes, length}

-- A multihash is a hash function's code with a digest.
pub record Multihash : Type 0 where
  pub code : ℕ
  pub digest : Bytes

-- A peer is known by its identifier alone, which is compared and encoded.
abbrev pub PeerId : Type 0
PeerId = ℕ

-- The twenty bytes of an Ethereum address.
abbrev pub Address : Type 0
Address = Bytes

-- `DefaultHash::SIZE`
abbrev pub hash_size : ℕ
hash_size = 32

-- `Address::len_bytes()`
abbrev pub address_size : ℕ
address_size = 20

-- What the program calls of the crates `multihash` and `libp2p`.
pub record Formats : Type 0 where
  -- `Code::try_from(u64)` succeeds
  pub known_code : ℕ → Bool
  -- `Code::Keccak256`, and its `digest` of some bytes
  pub keccak256_code : ℕ
  pub keccak256 : Bytes → Bytes
  -- `Multihash::to_bytes`, `Multihash::from_bytes`, `Multihash::wrap`
  pub multihash_to_bytes : Multihash → Bytes
  pub multihash_from_bytes : Bytes → Option Multihash
  pub multihash_wrap : ℕ → Bytes → Option Multihash
  -- `PeerId::to_bytes`, `PeerId::from_bytes`
  pub peer_to_bytes : PeerId → Bytes
  pub peer_from_bytes : Bytes → Option PeerId

-- What those crates document of them.
pub record FormatsLaws (f : Formats) : Type 0 where
  pub keccak256_known : f.known_code f.keccak256_code ≡ true
  pub keccak256_length : (b : Bytes) → length (f.keccak256 b) ≡ hash_size
  pub multihash_round : (m : Multihash) → f.multihash_from_bytes (f.multihash_to_bytes m) ≡ some m
  -- the encoding holds the code and the length before the digest
  pub multihash_longer : (m : Multihash) → length m.digest < length (f.multihash_to_bytes m)
  pub wrap_fits :
      (c : ℕ) (d : Bytes)
      → length d ≡ hash_size
      → f.multihash_wrap c d ≡ some (record { code = c; digest = d })
  pub peer_round : (p : PeerId) → f.peer_from_bytes (f.peer_to_bytes p) ≡ some p
