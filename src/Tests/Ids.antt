-- ===== src/Tests/Ids.antt =====
-- Tests of identifiers, jobs and their prices.
use balthazar.Prelude.{◌≡◌, refl, ◌%◌, not, ◌&&◌, true, some, List, [], ◌∷◌, is_empty, u64_mod}
use balthazar.Ids.HashId.{ok, from_bytes, to_bytes}
use balthazar.Ids.HashId.RoundTrip.{from_bytes-to_bytes}
use balthazar.Job.{Setter, ProgramKind, new, change_all, is_ready, calc_max_price}
use balthazar.Job.Price.{exact_price, calc_max_price-is_ready}
use balthazar.Job.Ready.{is_ready-change_all-new}
use balthazar.TaskStatus.{TaskStatus, from_option, into_data}
use balthazar.Proposal.{timed_out}
use balthazar.TaskStatus.{from_option-into_data}
use balthazar.Tests.{
  formats, formats-FormatsLaws, task_key, account, program, addresses, arguments, job,
}

from_bytes-to_bytes_example : from_bytes formats (to_bytes formats task_key) ≡ ok task_key
from_bytes-to_bytes_example = from_bytes-to_bytes formats formats-FormatsLaws task_key refl

job-is_ready : is_ready job ≡ true
unfolding is_ready
job-is_ready = refl

calc_max_price-is_ready_example : calc_max_price job ≡ some (exact_price job % u64_mod)
calc_max_price-is_ready_example = calc_max_price-is_ready job job-is_ready

price : calc_max_price job ≡ some 32
unfolding calc_max_price
price = refl

abbrev setters : List Setter
setters = Setter.set_timeout 3 ∷ Setter.set_redundancy 0 ∷ []

is_ready-change_all-new_example :
    is_ready (change_all (new ProgramKind.wasm addresses program arguments account) setters)
    ≡ (not (is_empty addresses) && not (is_empty arguments))
is_ready-change_all-new_example =
    is_ready-change_all-new ProgramKind.wasm addresses program arguments account setters

from_option-into_data_example :
    from_option (some (into_data (TaskStatus.error timed_out))) ≡ TaskStatus.error timed_out
from_option-into_data_example = from_option-into_data (TaskStatus.error timed_out)
