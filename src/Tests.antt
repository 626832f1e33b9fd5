-- ===== src/Tests.antt =====
-- Concrete formats, a smart-contract and a small network, for the tests.
pub mod Ids
pub mod State
pub mod Manager
pub mod Accepted
pub mod Kept
pub mod Authorized
pub mod Connected
pub mod Related
use Prim.Native.String.{String}
use balthazar.Prelude.{
  ℕ, ◌≡◌, refl, Bool, true, false, arith, Option, none, some, List, [], ◌∷◌, Bytes, length,
  replicate,
}
use balthazar.Ids.{Multihash, Address, Formats, FormatsLaws}
use balthazar.Ids.HashId.{HashId}
use balthazar.Job.{Job, ProgramKind, BestMethod}
use balthazar.Completeness.{WorkerPaymentInfo}
use balthazar.Change.{Chain, Env}
use balthazar.Node.{NodeConfig}

-- A multihash is written as its code, its length and its digest, and each digest is the same.
abbrev encode : Multihash → Bytes
encode m = m.code ∷ length m.digest ∷ m.digest

abbrev decode : Bytes → Option Multihash
decode [] = none
decode (c ∷ []) = none
decode (c ∷ l ∷ d) = some (record { code = c; digest = d })

abbrev decode_peer : Bytes → Option ℕ
decode_peer [] = none
decode_peer (p ∷ []) = some p
decode_peer (p ∷ q ∷ ps) = none

abbrev pub formats : Formats
formats = record {
  known_code = λ c. true;
  keccak256_code = 27;
  keccak256 = λ b. replicate 32 7;
  multihash_to_bytes = encode;
  multihash_from_bytes = decode;
  multihash_wrap = λ c d. some (record { code = c; digest = d });
  peer_to_bytes = λ p. p ∷ [];
  peer_from_bytes = decode_peer;
}

pub formats-FormatsLaws : FormatsLaws formats
formats-FormatsLaws = record {
  keccak256_known = refl;
  keccak256_length = λ b. refl;
  multihash_round = λ m. refl;
  multihash_longer = λ m. omega arith;
  wrap_fits = λ c d h. refl;
  peer_round = λ p. refl;
}

abbrev pub job_key : HashId
job_key = record { inner = record { code = 27; digest = 10 ∷ 11 ∷ [] } }

abbrev pub task_key : HashId
task_key = record { inner = record { code = 27; digest = 20 ∷ 21 ∷ [] } }

abbrev pub account : Address
account = replicate 20 1

abbrev pub program : Multihash
program = record { code = 27; digest = 9 ∷ [] }

abbrev pub addresses : List String
addresses = "/ipfs/program" ∷ []

abbrev pub arguments : List Bytes
arguments = (1 ∷ []) ∷ []

-- One argument, two replicas, one failure.
abbrev pub job : Job
job = record {
  program_kind = ProgramKind.wasm;
  program_addresses = addresses;
  program_hash = program;
  arguments = arguments;
  timeout = 10;
  max_worker_price = 1;
  max_network_usage = 0;
  max_network_price = 1;
  min_checking_interval = 15;
  management_price = 1;
  redundancy = 2;
  max_failures = 1;
  best_method = BestMethod.cost;
  min_cpu_count = 1;
  min_memory = 0;
  min_network_speed = 0;
  is_program_pure = false;
  sender = account;
  nonce = some 0;
}

-- A chain that knows the one task of the one job, and where each call succeeds.
abbrev pub chain : Chain
chain = record {
  jobs_get_task = λ id. some (job_key, 0);
  jobs_get_job = λ id. some job;
  min_check_interval = λ id. some 15;
  set_managers_succeeds = λ id as'. true;
  set_completed_succeeds = λ id r is. true;
  set_failed_succeeds = λ id k. true;
}

abbrev pub env : Env
env = record { formats = formats; chain = chain; now = 5 }

abbrev pub config : NodeConfig
config = record { formats = formats; peer_id = 3; ethereum_address = some account }

abbrev pub info : WorkerPaymentInfo
info = record { worker_address = account; worker_price = 1; network_price = 1 }
