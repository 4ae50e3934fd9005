-- ===== src/Scheduler/Assign/Given.antt =====
-- What the store holds once `tryAssign` of internal/scheduler/engine.go gives an assignment.
use splai.Base.{
  ℕ, ◌+◌, String, ◌≡◌, refl, subst, ◌∙◌, Bool, true, false, ◌&&◌, Option, none, some, arith,
  if◌then◌else◌, str_eq, eq_iff, Map, Result, ok, err,
}
use splai.State.{Time, JobRecord, TaskRecord, TaskRef, WorkerRecord}
use splai.Store.{AuditPayload, get_task, update_task}
use splai.Store.Tables.{get_task-update_job, get_task-update_task}
use splai.Policy.{is_noop}
use splai.Scheduler.Engine.{Engine}
use splai.Scheduler.Preemption.{worker_at_capacity, try_preempt_lower_priority}
use splai.Scheduler.Assign.{
  Assignment, assignment_decision, audit_assignment, assigned_task, assign_with, assign,
  assign_checked, assign_to,
}

-- a property of the engine and of the assignment, if there is one
abbrev pub Answers : (Engine → Assignment → Type 0) → Engine × Result (Option Assignment) → Type 0
Answers P (e, ok (some a)) = P e a
Answers P (e, ok none) = Unit
Answers P (e, err m) = Unit

-- the task stands in the store under the lease that the assignment names
pub record IsLeased (duration : ℕ) (now : Time) (worker_id : String) (ref : TaskRef)
    (t : TaskRecord) (e : Engine) (a : Assignment) : Type 0 where
  pub stored :
      get_task ref.job_id ref.task_id e.store ≡ some (assigned_task duration now worker_id t)
  pub named : a.lease_id ≡ (assigned_task duration now worker_id t).lease_id
  pub counted : a.attempt ≡ t.attempt + 1

module _ (digest : AuditPayload → String) (now : Time) (worker_id : String) (ref : TaskRef)
    (t : TaskRecord) (job_named : t.job_id ≡ ref.job_id)
    (task_named : t.task_id ≡ ref.task_id) where
  abbrev Leases : ℕ → Engine × Result (Option Assignment) → Type 0
  Leases duration = Answers (IsLeased duration now worker_id ref t)

  assign_with-Leases :
      (duration : ℕ) (job : JobRecord) (r : Result (Map String)) (e : Engine)
      → Leases duration (assign_with now job (assigned_task duration now worker_id t) r e)
  unfolding assign_with assigned_task
  assign_with-Leases duration job (err m) e = tt
  assign_with-Leases duration job (ok inputs) e =
      let t' = assigned_task duration now worker_id t in
      record {
        stored =
            get_task-update_job now (update_task now t' e.store) (record job { updated_at = now })
              ref.job_id ref.task_id
            ∙ get_task-update_task now e.store t' ref.job_id ref.task_id
            ∙ kept t' job_named task_named refl;
        named = refl;
        counted = same_attempt;
      }
    where
      kept :
          (t' : TaskRecord)
          → t'.job_id ≡ ref.job_id
          → t'.task_id ≡ ref.task_id
          → record t' { updated_at = now } ≡ t'
          → (if str_eq t'.job_id ref.job_id && str_eq t'.task_id ref.task_id
              then some (record t' { updated_at = now })
              else get_task ref.job_id ref.task_id e.store)
            ≡ some t'
      kept t' p q r = ground (arith, r, eq_iff t'.job_id ref.job_id, eq_iff t'.task_id ref.task_id)

      same_attempt : (assigned_task duration now worker_id t).attempt ≡ t.attempt + 1
      same_attempt = refl

  assign-Leases :
      (job : JobRecord) (e : Engine) → Leases e.lease_duration (assign now worker_id job t e)
  unfolding assign
  assign-Leases job e = assign_with-Leases e.lease_duration job _ e

  Answers-if :
      (duration : ℕ) (b : Bool) (x y : Engine × Result (Option Assignment))
      → Leases duration x
      → Leases duration y
      → Leases duration (if b then x else y)
  Answers-if duration true x y p q = p
  Answers-if duration false x y p q = q

  assign_checked-Leases :
      (worker : WorkerRecord) (job : JobRecord) (e : Engine)
      → Leases e.lease_duration (assign_checked digest now worker worker_id job t e)
  unfolding assign_checked
  assign_checked-Leases worker job e =
      let d = assignment_decision job t worker e in
      let e' = audit_assignment digest now worker_id job t d e in
      Answers-if e.lease_duration (is_noop e.policy) _ _ (assign-Leases job e)
        (Answers-if e.lease_duration d.allowed _ _ (assign-Leases job e') tt)

  preempt-duration :
      (worker : WorkerRecord) (e : Engine)
      → (try_preempt_lower_priority digest now worker t e).0.lease_duration ≡ e.lease_duration
  unfolding try_preempt_lower_priority
  preempt-duration worker e = ground arith

  pub assign_to-Leases :
      (worker : WorkerRecord) (job : JobRecord) (e : Engine)
      → Leases e.lease_duration (assign_to digest now worker worker_id job t e)
  unfolding assign_to
  assign_to-Leases worker job e =
      let (e', preempted) = try_preempt_lower_priority digest now worker t e in
      Answers-if e.lease_duration (e.preempt && worker_at_capacity worker) _ _
        (Answers-if e.lease_duration preempted _ _
          (subst (λ n. Leases n (assign_checked digest now worker worker_id job t e'))
            (preempt-duration worker e) (assign_checked-Leases worker job e'))
          tt)
        (assign_checked-Leases worker job e)
