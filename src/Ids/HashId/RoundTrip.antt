-- ===== src/Ids/HashId/RoundTrip.antt =====
-- `to_bytes`, `as_bytes` and `from_bytes` of balthamisc/src/job.rs together.
use balthazar.Prelude.{ℕ, ◌≡◌, ◌≢◌, ap, Bytes, length, arith}
use balthazar.Ids.{Formats, FormatsLaws}
use balthazar.Ids.HashId.{HashId, ok, as_bytes, from_bytes, to_bytes}

-- What every constructor of a `HashId` ensures of it, but for the digest's length.
abbrev pub IsKeccak : Formats → HashId → Type 0
IsKeccak f id = id.inner.code ≡ f.keccak256_code

module _ (f : Formats) (laws : FormatsLaws f) where
  -- from_bytes gives back an identifier from its to_bytes, if it is a Keccak256 multihash and the
  -- formats obey their documentation.
  pub from_bytes-to_bytes : (id : HashId) → IsKeccak f id → from_bytes f (to_bytes f id) ≡ ok id
  unfolding from_bytes to_bytes
  from_bytes-to_bytes id h = ground (arith, laws.multihash_round id.inner, laws.keccak256_known)

  -- `from_bytes` accepts Keccak256 multihashes only.
  pub from_bytes-IsKeccak : (b : Bytes) (id : HashId) → from_bytes f b ≡ ok id → IsKeccak f id
  unfolding from_bytes
  from_bytes-IsKeccak b id h = ground arith

  pub as_bytes-ne-to_bytes : (id : HashId) → to_bytes f id ≢ as_bytes id
  unfolding to_bytes as_bytes
  as_bytes-ne-to_bytes id e = omega (arith, laws.multihash_longer id.inner, ap (length {A = ℕ}) e)
