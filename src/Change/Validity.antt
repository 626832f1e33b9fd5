-- ===== src/Change/Validity.antt =====
-- The well-formedness of the shared state, and `apply_state_change` of
-- balthalib/src/node/shared_state.rs.
use mathlib.Core.Path.{subst₂}
use balthazar.Prelude.{
  ℕ, ◌≡◌, refl, ap, ◌∙◌, false, Option, none, some, Bool-cases, inl, inr, arith, Bytes,
}
use balthazar.Prelude.Assoc.{lookup, insert, lookup-insert, lookup-or_insert, Assoc}
use balthazar.Ids.{PeerId, Address}
use balthazar.Ids.HashId.{TaskId, JobId, hash_id_eq, hash_eq, hash_eq_iff}
use balthazar.Job.{Job}
use balthazar.Completeness.{
  TaskCompleteness, TaskDefiniteErrorKind, Assigned, AssignError, is_incomplete, check_substate,
  unassign as take_slot, assign as fill_slot,
}
use balthazar.Completeness.Slots.{
  SlotsAre, new_completeness-SlotsAre, unassign-SlotsAre, assign-SlotsAre, check_substate-SlotsAre,
}
use balthazar.Task.{Task, SharedState, empty_state, new_task, set_completed, set_definitely_failed}
use balthazar.Change.{
  Env, StateChange, create, checked, unassign, assign, add_manager, set_nb_failures, complete,
  definetely_failed, change_task, apply_state_change, after_check, after_unassign, after_assign,
  after_complete, after_failed, provide, create_with, on_task,
}

-- A task stored under its own id, with a known job, as many slots as the job asks replicas, and no
-- worker in two slots.
abbrev pub TaskValid : Assoc JobId Job → TaskId → Task → Type 0
TaskValid jobs k t =
    (j : Job) × (t.task_id ≡ k)
    × (lookup t.job_id jobs ≡ some j)
    × SlotsAre j.redundancy t.completeness

pub record IsValid (s : SharedState) : Type 0 where
  pub at : (k : TaskId) (t : Task) → lookup k s.tasks ≡ some t → TaskValid s.jobs k t

pub empty_state-IsValid : IsValid empty_state
unfolding lookup
empty_state-IsValid = record { at = λ k t h. cc }

-- A change touches neither a task's identity nor its job.
ids-change_task :
    (env : Env) (id : TaskId) (address : Address) (t : Task) (c : StateChange)
    → ((change_task env id address t c).0.task_id ≡ t.task_id)
      × ((change_task env id address t c).0.job_id ≡ t.job_id)
unfolding change_task set_completed set_definitely_failed
ids-change_task env id address t add_manager = ground arith
ids-change_task env id address t _ = ground arith

SlotsAre-closed : (n : ℕ) (c : TaskCompleteness) → is_incomplete c ≡ false → SlotsAre n c
unfolding is_incomplete
SlotsAre-closed n (TaskCompleteness.incomplete ss) h = cc
SlotsAre-closed n (TaskCompleteness.definetely_failed reason) h = tt
SlotsAre-closed n (TaskCompleteness.completed result infos) h = tt

closed_by_set_completed :
    (result : Bytes) (t : Task) {t' : Task}
    → set_completed result t ≡ some t'
    → is_incomplete t'.completeness ≡ false
unfolding set_completed is_incomplete
closed_by_set_completed result t h = ground arith

closed_by_set_definitely_failed :
    (reason : TaskDefiniteErrorKind) (t : Task) {t' : Task}
    → set_definitely_failed reason t ≡ some t'
    → is_incomplete t'.completeness ≡ false
unfolding set_definitely_failed is_incomplete
closed_by_set_definitely_failed reason t h = ground arith

module _ (n : ℕ) (env : Env) (id : TaskId) (address : Address) (t : Task) where
  -- The task that a change leaves, where the change takes it out of one or more outcomes.
  SlotsAre-after_check :
      (o : Option TaskCompleteness)
      → ((c : TaskCompleteness) → o ≡ some c → SlotsAre n c)
      → SlotsAre n t.completeness
      → SlotsAre n (after_check t o).0.completeness
  unfolding after_check
  SlotsAre-after_check none of h = h
  SlotsAre-after_check (some c) of h = of c refl

  SlotsAre-after_unassign :
      (r : TaskCompleteness × Option Assigned)
      → SlotsAre n r.0
      → SlotsAre n (after_unassign id t r).0.completeness
  unfolding after_unassign
  SlotsAre-after_unassign (c, none) h = h
  SlotsAre-after_unassign (c, some a) h = h

  SlotsAre-after_assign :
      (w : PeerId) (r : TaskCompleteness × Option AssignError)
      → SlotsAre n r.0
      → SlotsAre n (after_assign id w t r).0.completeness
  unfolding after_assign
  SlotsAre-after_assign w (c, none) h = h
  SlotsAre-after_assign w (c, some e) h = h

  SlotsAre-after_complete :
      (result : Bytes) (o : Option Task)
      → ((t' : Task) → o ≡ some t' → is_incomplete t'.completeness ≡ false)
      → SlotsAre n t.completeness
      → SlotsAre n (after_complete env id result t o).0.completeness
  unfolding after_complete
  SlotsAre-after_complete result none closed h = h
  SlotsAre-after_complete result (some t') closed h =
      elim (Bool-cases (env.chain.set_managers_succeeds id t'.managers_addresses)) [
        | inl e ↦ rw e (SlotsAre-closed n t'.completeness (closed t' refl))
        | inr e ↦ rw e (SlotsAre-closed n t'.completeness (closed t' refl))
      ]

  SlotsAre-after_failed :
      (reason : TaskDefiniteErrorKind) (o : Option Task)
      → ((t' : Task) → o ≡ some t' → is_incomplete t'.completeness ≡ false)
      → SlotsAre n t.completeness
      → SlotsAre n (after_failed env id reason t o).0.completeness
  unfolding after_failed
  SlotsAre-after_failed reason none closed h = h
  SlotsAre-after_failed reason (some t') closed h =
      elim (Bool-cases (env.chain.set_managers_succeeds id t'.managers_addresses)) [
        | inl e ↦ rw e (SlotsAre-closed n t'.completeness (closed t' refl))
        | inr e ↦ rw e (SlotsAre-closed n t'.completeness (closed t' refl))
      ]

  change_task-SlotsAre :
      (c : StateChange)
      → SlotsAre n t.completeness
      → SlotsAre n (change_task env id address t c).0.completeness
  unfolding change_task
  change_task-SlotsAre (create job arg j) h = h
  change_task-SlotsAre (checked w) h =
      SlotsAre-after_check (check_substate env.now w t.completeness)
        (λ c e. check_substate-SlotsAre n env.now w t.completeness e h) h
  change_task-SlotsAre (unassign w) h =
      SlotsAre-after_unassign (take_slot w t.completeness) (unassign-SlotsAre n w t.completeness h)
  change_task-SlotsAre (assign w m info) h =
      SlotsAre-after_assign w (fill_slot env.now w m info t.completeness)
        (assign-SlotsAre n env.now w m info t.completeness h)
  change_task-SlotsAre add_manager h = h
  change_task-SlotsAre (set_nb_failures k) h = h
  change_task-SlotsAre (complete result) h =
      SlotsAre-after_complete result (set_completed result t)
        (λ t' e. closed_by_set_completed result t e) h
  change_task-SlotsAre (definetely_failed reason) h =
      SlotsAre-after_failed reason (set_definitely_failed reason t)
        (λ t' e. closed_by_set_definitely_failed reason t e) h

-- A task stored anew is as valid as the others.
insert-IsValid :
    (s : SharedState) (id : TaskId) (t : Task)
    → TaskValid s.jobs id t
    → IsValid s
    → IsValid (record s { tasks = insert id t s.tasks })
insert-IsValid s id t fits valid = record {
  at = λ k u h. elim (Bool-cases (hash_eq id k)) [
    | inl e ↦
        let same : id ≡ k = (hash_eq_iff id k).0 e in
        let stored : t ≡ u = ground (arith, lookup-insert id k t s.tasks) in
        subst₂ (TaskValid s.jobs) same stored fits
    | inr e ↦ valid.at k u (ground (arith, lookup-insert id k t s.tasks))
  ];
}

provide-IsValid :
    (s : SharedState) (job : JobId) (j : Option Job) → IsValid s → IsValid (provide job j s)
unfolding provide
provide-IsValid s job none valid = valid
provide-IsValid s job (some j) valid = record {
  at = λ k t h.
      let (j', named, known, slots) = valid.at k t h in
      (j', named, lookup-or_insert job t.job_id j j' s.jobs known, slots);
}

create_with-IsValid :
    (id : TaskId) (job : JobId) (arg : ℕ) (s : SharedState) (o : Option Job)
    → lookup job s.jobs ≡ o
    → IsValid s
    → IsValid (create_with id job arg s o).0
unfolding create_with new_task
create_with-IsValid id job arg s none e valid = valid
create_with-IsValid id job arg s (some j) e valid =
    insert-IsValid s id (new_task id job arg j.redundancy)
      (j, refl, e, new_completeness-SlotsAre j.redundancy) valid

on_task-IsValid :
    (env : Env) (id : TaskId) (address : Address) (c : StateChange) (s : SharedState)
    (o : Option Task)
    → lookup id s.tasks ≡ o
    → IsValid s
    → IsValid (on_task env id address c s o).0
unfolding on_task
on_task-IsValid env id address c s none e valid = valid
on_task-IsValid env id address c s (some t) e valid =
    elim (Bool-cases (is_incomplete t.completeness)) [
      | inl open_task ↦
          let (j, named, known, slots) = valid.at id t e in
          let (same_id, same_job) = ids-change_task env id address t c in
          rw open_task (
            insert-IsValid s id (change_task env id address t c).0
              (
                j,
                same_id ∙ named,
                ap (λ i. lookup i s.jobs) same_job ∙ known,
                change_task-SlotsAre j.redundancy env id address t c slots,
              )
              valid)
      | inr closed ↦ rw closed valid
    ]

-- Every change, applied to any task, keeps a well-formed state well formed, whatever it answers.
pub apply_state_change-IsValid :
    (env : Env) (id : TaskId) (address : Address) (s : SharedState) (c : StateChange)
    → IsValid s
    → IsValid (apply_state_change env id address s c).0
unfolding apply_state_change
apply_state_change-IsValid env id address s (create job arg j) valid =
    create_with-IsValid id job arg (provide job j s) (lookup job (provide job j s).jobs) refl
      (provide-IsValid s job j valid)
apply_state_change-IsValid env id address s c valid =
    on_task-IsValid env id address c s (lookup id s.tasks) refl valid
