-- ===== src/Consensus/Run.antt =====
-- Lemmas on the changes of one task, `check_and_apply_proposal` of
-- balthalib/src/node/shared_state.rs.
use balthazar.Prelude.{
  ◌≡◌, refl, ap, sym, ◌∙◌, Bool, true, false, some, List, [], ◌∷◌, ◌++◌, All, if◌then◌else◌,
  Bool-cases, inl, inr,
}
use balthazar.Prelude.Assoc.{lookup, insert, insert-insert, insert-lookup, lookup-insert_self}
use balthazar.Ids.{Address}
use balthazar.Ids.HashId.{TaskId, hash_id_eq}
use balthazar.Completeness.{is_incomplete}
use balthazar.Task.{Task, SharedState}
use balthazar.Change.{
  Env, Effect, Outcome, done, err, panic, StateChange, create, checked, unassign, assign,
  add_manager, set_nb_failures, complete, definetely_failed, Applied, change_task, update_task,
  on_task, apply_state_change,
}
use balthazar.Consensus.{unwrap_then, apply_all}

-- All changes but the creation of a task.
abbrev pub is_update : StateChange → Bool
is_update (create job arg j) = false
is_update (checked w) = true
is_update (unassign w) = true
is_update (assign w m info) = true
is_update add_manager = true
is_update (set_nb_failures n) = true
is_update (complete result) = true
is_update (definetely_failed reason) = true

abbrev pub IsUpdate : StateChange → Type 0
IsUpdate c = is_update c ≡ true

-- The changes on a task by itself; a task that is no more incomplete takes none.
unfoldable pub run_changes : Env → TaskId → Address → Task → List StateChange → Applied Task
run_changes env id address t [] = (t, [], done tt)
run_changes env id address t (c ∷ cs) =
    if is_incomplete t.completeness
    then unwrap_then (change_task env id address t c) (λ t'. run_changes env id address t' cs)
    else (t, [], panic)

module _ (env : Env) (id : TaskId) (address : Address) where
  apply-IsUpdate :
      (s : SharedState) (c : StateChange)
      → IsUpdate c
      → apply_state_change env id address s c ≡ on_task env id address c s (lookup id s.tasks)
  unfolding apply_state_change
  apply-IsUpdate s (create job arg j) h = cc
  apply-IsUpdate s add_manager h = refl
  apply-IsUpdate s _ h = refl

  restored :
      (s : SharedState) (t : Task) (effects : List Effect) (o : Outcome (Unit {0}))
      → lookup id s.tasks ≡ some t
      → update_task id s (t, effects, o) ≡ (s, effects, o)
  unfolding update_task
  restored s t effects o h =
      ap (λ m. (record s { tasks = m }, effects, o)) (insert-lookup id t s.tasks h)

  update_twice :
      (s : SharedState) (t : Task) (r : Applied Task)
      → update_task id (record s { tasks = insert id t s.tasks }) r ≡ update_task id s r
  unfolding update_task
  update_twice s t (u, effects, o) =
      ap (λ m. (record s { tasks = m }, effects, o)) (insert-insert id u t s.tasks)

  unwrap_update :
      (s : SharedState) (r : Applied Task) (rest : SharedState → Applied SharedState)
      (rest' : Task → Applied Task)
      → ((t : Task) → rest (record s { tasks = insert id t s.tasks }) ≡ update_task id s (rest' t))
      → unwrap_then (update_task id s r) rest ≡ update_task id s (unwrap_then r rest')
  unfolding update_task
  unwrap_update s (t, effects, done u) rest rest' h =
      ap (λ (a : Applied SharedState). (a.0, effects ++ a.1, a.2)) (h t)
  unwrap_update s (t, effects, err e) rest rest' h = refl
  unwrap_update s (t, effects, panic) rest rest' h = refl

  -- Changes of a known task, none of them a creation, leave the rest of the state as it is, and
  -- come to the same changes run on the task by itself, with the same effects and the same panics.
  pub apply_all-run_changes :
      (s : SharedState) (t : Task) (cs : List StateChange)
      → lookup id s.tasks ≡ some t
      → All IsUpdate cs
      → apply_all env id address s cs ≡ update_task id s (run_changes env id address t cs)
  unfolding apply_all run_changes on_task
  apply_all-run_changes s t [] h us = sym (restored s t [] (done tt) h)
  apply_all-run_changes s t (c ∷ cs) h (u, us) =
      rw (apply-IsUpdate s c u, h)
        (elim (Bool-cases (is_incomplete t.completeness)) [
          | inl e ↦ rw e (
              unwrap_update s (change_task env id address t c)
                (λ s'. apply_all env id address s' cs) (λ t'. run_changes env id address t' cs)
                (λ t'.
                  apply_all-run_changes (record s { tasks = insert id t' s.tasks }) t' cs
                    (lookup-insert_self id t' s.tasks) us
                  ∙ update_twice s t' (run_changes env id address t' cs)))
          | inr e ↦ rw e (sym (restored s t [] panic h))
        ])
