-- ===== src/Job/Price.antt =====
-- The price of a job (balthamisc/src/job.rs), and the same formula over unbounded numbers.
use native.Mathlib.Nat.{div-add-mod, add-mul-mod_self_left, mod-add-mod, add-mod-mod, mul_comm}
use balthazar.Prelude.{
  ℕ, false, ◌+◌, ◌*◌, ◌/◌, ◌%◌, ◌<◌, ◌==◌, ◌≡◌, sym, ap, ◌∙◌, true, some, length, u64_mod, arith,
}
use balthazar.Job.{Job, is_ready, calc_max_price_per_task, calc_max_price}

mod-mul_left : (a b m : ℕ) → a % m * b % m ≡ a * b % m
mod-mul_left a b m =
    sym (add-mul-mod_self_left (a % m * b) m (a / m * b))
    ∙ ap (λ t. t % m) (omega (arith, ap (λ t. t * b) (div-add-mod a m)))

mod-mul_right : (a b m : ℕ) → a * (b % m) % m ≡ a * b % m
mod-mul_right a b m =
    ap (λ t. t % m) (mul_comm a (b % m)) ∙ mod-mul_left b a m ∙ ap (λ t. t % m) (mul_comm b a)

ruleset residues = (mod-mul_left, mod-mul_right, mod-add-mod, add-mod-mod)

-- What one task can cost at most: the workers' share, and the managers'.
abbrev pub exact_price_per_task : Job → ℕ
exact_price_per_task j =
    j.redundancy * (j.timeout * j.max_worker_price + j.max_network_usage * j.max_network_price)
    + j.management_price
      * (j.redundancy + j.max_failures)
      * (4 + j.timeout / j.min_checking_interval)

abbrev pub exact_price : Job → ℕ
exact_price j = length j.arguments * exact_price_per_task j

positive_test : (n : ℕ) → 0 < n → (n == 0) ≡ false
positive_test n h = ground arith

price_per_task_residue :
    (j : Job)
    → 0 < j.min_checking_interval
    → calc_max_price_per_task j ≡ some (exact_price_per_task j % u64_mod)
unfolding calc_max_price_per_task
price_per_task_residue j h = rw (positive_test j.min_checking_interval h) (simp residues)

-- The price that the code computes is the exact one, modulo `2 ^ 64`: no product or sum in between
-- loses more than that.
calc_max_price_residue :
    (j : Job) → 0 < j.min_checking_interval → calc_max_price j ≡ some (exact_price j % u64_mod)
unfolding calc_max_price
calc_max_price_residue j h = rw (price_per_task_residue j h) (simp residues)

ready_interval : (j : Job) → is_ready j ≡ true → 0 < j.min_checking_interval
unfolding is_ready
ready_interval j h = ground arith

-- A job that is ready has a price: the exact one modulo 2^64, whatever sums and products overflow
-- on the way.
pub calc_max_price-is_ready :
    (j : Job) → is_ready j ≡ true → calc_max_price j ≡ some (exact_price j % u64_mod)
calc_max_price-is_ready j h = calc_max_price_residue j (ready_interval j h)
