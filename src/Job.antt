-- ===== src/Job.antt =====
-- `Job` of balthamisc/src/job.rs: what a sender asks for, with its minimal values and its price.
pub mod Ready
pub mod Price
use Prim.Native.String.{String}
use balthazar.Prelude.{
  ℕ, zero, suc, ◌+◌, ◌*◌, ◌/◌, ◌%◌, Bool, true, false, not, ◌&&◌, Option, none, some, List, [], ◌∷◌,
  Bytes, length, is_empty, ltb, leb, ◌==◌, wrap64, if◌then◌else◌,
}
use balthazar.Ids.{Multihash, Address, Formats}
use balthazar.Ids.HashId.{IdResult, job_id}

pub data ProgramKind : Type 0 where
  wasm : ProgramKind

pub data BestMethod : Type 0 where
  cost performance : BestMethod

abbrev pub min_timeout : ℕ
min_timeout = 10

abbrev pub min_cpu : ℕ
min_cpu = 1

abbrev pub min_redundancy : ℕ
min_redundancy = 1

abbrev pub min_worker_price : ℕ
min_worker_price = 1

abbrev pub min_network_price : ℕ
min_network_price = 1

abbrev pub min_interval : ℕ
min_interval = 15

abbrev pub min_man_price : ℕ
min_man_price = 1

-- The numbers are `u64`, and the nonce is a `u128`.
pub record Job : Type 0 where
  pub program_kind : ProgramKind
  pub program_addresses : List String
  pub program_hash : Multihash
  pub arguments : List Bytes
  pub timeout : ℕ
  pub max_worker_price : ℕ
  pub max_network_usage : ℕ
  pub max_network_price : ℕ
  pub min_checking_interval : ℕ
  pub management_price : ℕ
  pub redundancy : ℕ
  pub max_failures : ℕ
  pub best_method : BestMethod
  pub min_cpu_count : ℕ
  pub min_memory : ℕ
  pub min_network_speed : ℕ
  pub is_program_pure : Bool
  pub sender : Address
  pub nonce : Option ℕ

-- `Job::new`
unfoldable pub new : ProgramKind → List String → Multihash → List Bytes → Address → Job
new kind addresses hash arguments sender = record {
  program_kind = kind;
  program_addresses = addresses;
  program_hash = hash;
  arguments = arguments;
  timeout = min_timeout;
  max_worker_price = min_worker_price;
  max_network_usage = 0;
  max_network_price = min_network_price;
  min_checking_interval = min_interval;
  management_price = min_man_price;
  redundancy = min_redundancy;
  max_failures = 0;
  best_method = BestMethod.cost;
  min_cpu_count = min_cpu;
  min_memory = 0;
  min_network_speed = 0;
  is_program_pure = false;
  sender = sender;
  nonce = none;
}

-- A call of one of the setters.
pub data Setter : Type 0 where
  set_program_kind : ProgramKind → Setter
  set_timeout : ℕ → Setter
  set_max_worker_price : ℕ → Setter
  set_max_network_usage : ℕ → Setter
  set_max_network_price : ℕ → Setter
  set_min_checking_interval : ℕ → Setter
  set_management_price : ℕ → Setter
  set_redundancy : ℕ → Setter
  set_max_failures : ℕ → Setter
  set_best_method : BestMethod → Setter
  set_min_cpu_count : ℕ → Setter
  set_min_memory : ℕ → Setter
  set_min_network_speed : ℕ → Setter
  set_is_program_pure : Bool → Setter
  set_nonce : Option ℕ → Setter

-- `if new > MIN { new } else { MIN }`
at_least : ℕ → ℕ → ℕ
at_least least new = if ltb least new then new else least

-- The setters' bodies.
unfoldable pub change : Job → Setter → Job
unfolding at_least
change j (set_program_kind k) = record j { program_kind = k }
change j (set_timeout n) = record j { timeout = at_least min_timeout n }
change j (set_max_worker_price n) = record j { max_worker_price = at_least min_worker_price n }
change j (set_max_network_usage n) = record j { max_network_usage = n }
change j (set_max_network_price n) = record j { max_network_price = at_least min_network_price n }
change j (set_min_checking_interval n) = record j {
  min_checking_interval = at_least min_interval n;
}
change j (set_management_price n) = record j { management_price = at_least min_man_price n }
change j (set_redundancy n) = record j { redundancy = at_least min_redundancy n }
change j (set_max_failures n) = record j { max_failures = n }
change j (set_best_method m) = record j { best_method = m }
change j (set_min_cpu_count n) = record j { min_cpu_count = at_least min_cpu n }
change j (set_min_memory n) = record j { min_memory = n }
change j (set_min_network_speed n) = record j { min_network_speed = n }
change j (set_is_program_pure b) = record j { is_program_pure = b }
change j (set_nonce n) = record j { nonce = n }

-- A sequence of setter calls.
unfoldable pub change_all : Job → List Setter → Job
unfolding change
change_all j [] = j
change_all j (c ∷ cs) = change_all (change j c) cs

-- `Job::is_ready`
unfoldable pub is_ready : Job → Bool
is_ready j =
    not (is_empty j.program_addresses)
    && (not (is_empty j.arguments)
        && (leb min_timeout j.timeout
            && (leb min_worker_price j.max_worker_price
                && (leb min_network_price j.max_network_price
                    && (leb min_interval j.min_checking_interval
                        && (leb min_man_price j.management_price
                            && (leb min_redundancy j.redundancy
                                && leb min_cpu j.min_cpu_count)))))))

id_of_nonce : Formats → Address → Option ℕ → Option IdResult
id_of_nonce f sender none = none
id_of_nonce f sender (some nonce) = some (job_id f sender nonce)

-- `Job::job_id`
unfoldable pub known_job_id : Formats → Job → Option IdResult
unfolding id_of_nonce
known_job_id f j = id_of_nonce f j.sender j.nonce

-- `+` and `*` on `u64`, as a release build computes them.
abbrev pub add64 : ℕ → ℕ → ℕ
add64 a b = wrap64 (a + b)

abbrev pub mul64 : ℕ → ℕ → ℕ
mul64 a b = wrap64 (a * b)

-- `Job::calc_max_price_per_task`; the division panics at 0
unfoldable pub calc_max_price_per_task : Job → Option ℕ
calc_max_price_per_task j =
    if min_checking_interval == 0
    then none
    else some (
        add64
          (mul64 redundancy
            (add64 (mul64 timeout max_worker_price) (mul64 max_network_usage max_network_price)))
          (mul64 (mul64 management_price (add64 redundancy max_failures))
            (add64 4 (timeout / min_checking_interval))))
  where
    open j use {
      min_checking_interval, redundancy, timeout, max_worker_price, max_network_usage,
      max_network_price, management_price, max_failures,
    }

times : ℕ → Option ℕ → Option ℕ
times n none = none
times n (some p) = some (mul64 n p)

-- `Job::calc_max_price`
unfoldable pub calc_max_price : Job → Option ℕ
unfolding times calc_max_price_per_task
calc_max_price j = times (wrap64 (length j.arguments)) (calc_max_price_per_task j)
