-- ===== src/Ids/HashId.antt =====
-- `HashId` of balthamisc/src/job.rs: identifiers of jobs and of tasks are Keccak256 multihashes.
pub mod RoundTrip
use balthazar.Prelude.{
  ℕ, zero, suc, ◌/◌, ◌%◌, ◌==◌, ◌≡◌, ◌↔◌, refl, ap, Bool, true, ◌&&◌, Option, none, some, List, [],
  ◌∷◌, ◌++◌, not, Bytes, bytes_eq, bytes_eq_iff, length, take, if◌then◌else◌, Eq, arith,
}
use balthazar.Ids.{Multihash, Address, Formats, hash_size}

pub record HashId : Type 0 where
  pub inner : Multihash

abbrev pub JobId : Type 0
JobId = HashId

abbrev pub TaskId : Type 0
TaskId = HashId

-- `multiformats::Error`, as far as identifiers raise it
pub data IdError : Type 0 where
  multihash_error : IdError
  wrong_hash_algorithm : ℕ → ℕ → IdError
  wrong_source_length : ℕ → ℕ → IdError

pub data IdResult : Type 0 where
  ok : HashId → IdResult
  err : IdError → IdResult

-- the derived `PartialEq`
unfoldable pub hash_eq : HashId → HashId → Bool
hash_eq a b = (a.inner.code == b.inner.code) && bytes_eq a.inner.digest b.inner.digest

pub hash_eq_iff : (a b : HashId) → (hash_eq a b ≡ true) ↔ (a ≡ b)
unfolding hash_eq
hash_eq_iff a b = (
  λ h. ground (arith, bytes_eq_iff a.inner.digest b.inner.digest),
  λ e. ground (arith, bytes_eq_iff a.inner.digest b.inner.digest),
)

instance abbrev pub hash_id_eq : Eq HashId
hash_id_eq = record { beq = hash_eq; beq_iff = hash_eq_iff }

-- `as_bytes`: the digest alone
unfoldable pub as_bytes : HashId → Bytes
as_bytes id = id.inner.digest

-- `TryFrom<Multihash>`
unfoldable pub try_from_multihash : Formats → Multihash → IdResult
try_from_multihash f src =
    if not (f.known_code src.code)
    then err multihash_error
    else if not (src.code == f.keccak256_code)
    then err (wrong_hash_algorithm f.keccak256_code src.code)
    else ok (record { inner = src })

from_option : Formats → Option Multihash → IdResult
from_option f none = err multihash_error
from_option f (some m) = try_from_multihash f m

-- `from_bytes`
unfoldable pub from_bytes : Formats → Bytes → IdResult
unfolding from_option try_from_multihash
from_bytes f bytes = from_option f (f.multihash_from_bytes bytes)

-- `to_bytes`
unfoldable pub to_bytes : Formats → HashId → Bytes
to_bytes f id = f.multihash_to_bytes id.inner

-- `to_bytes32`: the slice panics on a shorter digest
unfoldable pub to_bytes32 : HashId → Option Bytes
to_bytes32 id =
    if balthazar.Prelude.leb hash_size (length id.inner.digest)
    then some (take hash_size id.inner.digest)
    else none

-- `TryFrom<&[u8]>`
unfoldable pub try_from_slice : Formats → Bytes → IdResult
unfolding from_option try_from_multihash
try_from_slice f src =
    if length src == hash_size
    then from_option f (f.multihash_wrap f.keccak256_code src)
    else err (wrong_source_length hash_size (length src))

-- `u128::to_be_bytes`, over the bytes that are left to write
unfoldable pub be_bytes : ℕ → ℕ → Bytes
be_bytes zero n = []
be_bytes (suc k) n = be_bytes k (n / 256) ++ n % 256 ∷ []

-- what `job_id` and `task_id` hash
unfoldable pub job_id_buffer : Address → ℕ → Bytes
unfolding be_bytes
job_id_buffer address nonce = address ++ be_bytes 16 nonce

unfoldable pub task_id_buffer : JobId → ℕ → Bytes
unfolding be_bytes as_bytes
task_id_buffer job i = as_bytes job ++ be_bytes 16 i

-- `DefaultHash::digest(…).try_into()`, whose error `job_id` and `task_id` take for impossible
unfoldable pub digest_id : Formats → Bytes → IdResult
unfolding try_from_multihash
digest_id f buffer =
    try_from_multihash f (record { code = f.keccak256_code; digest = f.keccak256 buffer })

unfoldable pub job_id : Formats → Address → ℕ → IdResult
unfolding digest_id job_id_buffer
job_id f address nonce = digest_id f (job_id_buffer address nonce)

unfoldable pub task_id : Formats → JobId → ℕ → IdResult
unfolding digest_id task_id_buffer
task_id f job i = digest_id f (task_id_buffer job i)
