-- ===== src/Job/Ready.antt =====
-- The setters of a job and `is_ready` of balthamisc/src/job.rs.
use Prim.Native.String.{String}
use balthazar.Prelude.{◌≤◌, ◌≡◌, not, ◌&&◌, List, [], ◌∷◌, Bytes, is_empty, arith}
use balthazar.Ids.{Multihash, Address}
use balthazar.Job.{
  ProgramKind, Job, Setter, new, change, change_all, is_ready, min_timeout, min_cpu, min_redundancy,
  min_worker_price, min_network_price, min_interval, min_man_price,
}

pub record IsBounded (j : Job) : Type 0 where
  pub timeout : min_timeout ≤ j.timeout
  pub worker_price : min_worker_price ≤ j.max_worker_price
  pub network_price : min_network_price ≤ j.max_network_price
  pub interval : min_interval ≤ j.min_checking_interval
  pub man_price : min_man_price ≤ j.management_price
  pub redundancy : min_redundancy ≤ j.redundancy
  pub cpu : min_cpu ≤ j.min_cpu_count

pub change-IsBounded : (j : Job) (c : Setter) → IsBounded j → IsBounded (change j c)
unfolding change
change-IsBounded j (Setter.set_timeout n) h = ground arith
change-IsBounded j _ h = ground arith

-- The setters touch neither the addresses nor the arguments.
addresses-change : (j : Job) (c : Setter) → (change j c).program_addresses ≡ j.program_addresses
unfolding change
addresses-change j (Setter.set_timeout n) = ground arith
addresses-change j _ = ground arith

arguments-change : (j : Job) (c : Setter) → (change j c).arguments ≡ j.arguments
unfolding change
arguments-change j (Setter.set_timeout n) = ground arith
arguments-change j _ = ground arith

pub is_ready_of_IsBounded :
    (j : Job)
    → IsBounded j
    → is_ready j ≡ (not (is_empty j.program_addresses) && not (is_empty j.arguments))
unfolding is_ready
is_ready_of_IsBounded j h = ground arith

pub change_all-is_ready :
    (j : Job) (cs : List Setter)
    → IsBounded j
    → is_ready (change_all j cs)
      ≡ (not (is_empty j.program_addresses) && not (is_empty j.arguments))
unfolding change_all
change_all-is_ready j [] h = is_ready_of_IsBounded j h
change_all-is_ready j (c ∷ cs) h = cc (
  change_all-is_ready (change j c) cs (change-IsBounded j c h),
  addresses-change j c,
  arguments-change j c,
)

-- Whatever setters run on a new job, it is ready exactly if it has a program address and an
-- argument.
pub is_ready-change_all-new :
    (kind : ProgramKind) (addresses : List String) (hash : Multihash) (arguments : List Bytes)
    (sender : Address) (cs : List Setter)
    → is_ready (change_all (new kind addresses hash arguments sender) cs)
      ≡ (not (is_empty addresses) && not (is_empty arguments))
unfolding new
is_ready-change_all-new kind addresses hash arguments sender cs =
    change_all-is_ready (new kind addresses hash arguments sender) cs (omega arith)
