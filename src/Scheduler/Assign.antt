-- ===== src/Scheduler/Assign.antt =====
-- `tryAssign` of internal/scheduler/engine.go: a reference from the queue becomes
-- an assignment of its task to the worker that polls.
pub mod Given
pub mod Guards
use splai.Base.{
  ℕ, ◌+◌, ◌/◌, String, ◌⧺◌, Bool, true, false, ◌&&◌, ◌||◌, not, Option, none, some, List, [], ◌∷◌,
  ◌++◌, ltb, leb, ◌==◌, if◌then◌else◌, str_eq, is_empty, Map, insert, Result, ok, err,
}
use splai.State.{
  Time, is_zero, Status, queued, assigned, running, failed, status_eq, JobRecord, TaskRecord,
  TaskRef, WorkerRecord,
}
use splai.Queue.{enqueue}
use splai.Store.{
  MemoryStore, AuditPayload, get_job, update_job, get_task, update_task, get_worker,
  list_tasks_by_worker_status, count_tasks_by_tenant_status, append_audit_event,
}
use splai.Policy.{Decision, evaluate_assignment, is_noop}
use splai.Scheduler.Engine.{Engine, input, priority_rank, ref_of, dependencies_completed}
use splai.Scheduler.Leases.{new_lease_id, lease_end}
use splai.Scheduler.Submit.{append_policy_audit}
use splai.Scheduler.Preemption.{worker_at_capacity, try_preempt_lower_priority}
use splai.Scheduler.Placement.{Scores, best_worker_for_task}

-- splaiapi.Assignment
pub record Assignment : Type 0 where
  pub job_id : String
  pub task_id : String
  pub type : String
  pub inputs : Map String
  pub attempt : ℕ
  pub lease_id : String

unfoldable pub assignment_decision : JobRecord → TaskRecord → WorkerRecord → Engine → Decision
assignment_decision job t worker e = evaluate_assignment e.policy (record {
  tenant = job.tenant;
  task_type = t.type;
  model = input "model" t;
  data_classification = input "_data_classification" t;
  network_isolation = input "_network_isolation" t;
  worker_locality = worker.locality;
  worker_gpu = worker.gpu;
  running_tasks = count_tasks_by_tenant_status job.tenant running e.store;
})

-- the decision goes on record
unfoldable pub audit_assignment :
    (AuditPayload → String) → Time → String → JobRecord → TaskRecord → Decision → Engine → Engine
audit_assignment digest now worker_id job t d e = record e {
  store =
      append_policy_audit digest now job.tenant "policy_check_assignment" d
        ("job_id=" ⧺ (t.job_id ⧺ (" task_id=" ⧺ (t.task_id ⧺ (" worker_id=" ⧺ worker_id)))))
        e.store;
}

-- the policy denies the assignment: the task and its job fail
unfoldable pub deny : Time → JobRecord → TaskRecord → Decision → Engine → Engine
deny now job t d e =
    let why = "policy denied assignment: " ⧺ d.reason_code in
    let s = update_task now (record t { status = failed; error = why; updated_at = now }) e.store in
    record e {
      store = update_job now (record job { status = failed; message = why; updated_at = now }) s;
    }

-- the outputs of the dependencies join the inputs; a missing one is an error
unfoldable pub dependency_inputs :
    String → List String → Map String → MemoryStore → Result (Map String)
dependency_inputs job_id [] inputs s = ok inputs
dependency_inputs job_id (dep ∷ deps) inputs s = elim (get_task job_id dep s) [
  | none ↦ err ("dependency " ⧺ (dep ⧺ " not found"))
  | some t ↦
      dependency_inputs job_id deps (insert ("dep:" ⧺ (dep ⧺ ":output_uri")) t.output_uri inputs) s
]

-- the task under its new lease
unfoldable pub assigned_task : ℕ → Time → String → TaskRecord → TaskRecord
assigned_task duration now worker_id t =
    let named = record t {
      status = assigned;
      worker_id = worker_id;
      attempt = t.attempt + 1;
      lease_id = new_lease_id worker_id t.task_id (t.attempt + 1) now;
    } in
    record named { lease_expires = lease_end duration named now; updated_at = now }

-- `task` is the one under the new lease
unfoldable pub assign_with :
    Time
    → JobRecord
    → TaskRecord
    → Result (Map String)
    → Engine
    → Engine × Result (Option Assignment)
assign_with now job task (err message) e = (e, err message)
assign_with now job task (ok inputs) e = (
  record e {
    store = update_job now (record job { updated_at = now }) (update_task now task e.store);
  },
  ok (
      some (record {
        job_id = task.job_id;
        task_id = task.task_id;
        type = task.type;
        inputs = inputs;
        attempt = task.attempt;
        lease_id = task.lease_id;
      })),
)

unfoldable pub assign :
    Time → String → JobRecord → TaskRecord → Engine → Engine × Result (Option Assignment)
unfolding assigned_task dependency_inputs assign_with
assign now worker_id job t e =
    assign_with now job (assigned_task e.lease_duration now worker_id t)
      (dependency_inputs t.job_id t.dependencies t.inputs e.store) e

-- the check of the policy, and the assignment
unfoldable pub assign_checked :
    (AuditPayload → String)
    → Time
    → WorkerRecord
    → String
    → JobRecord
    → TaskRecord
    → Engine
    → Engine × Result (Option Assignment)
unfolding assignment_decision audit_assignment deny assign
assign_checked digest now worker worker_id job t e =
    let d = assignment_decision job t worker e in
    let e' = audit_assignment digest now worker_id job t d e in
    if is_noop e.policy
    then assign now worker_id job t e
    else if d.allowed
    then assign now worker_id job t e'
    else (deny now job t d e', ok none)

-- a full worker takes the task only in place of one of lower priority
unfoldable pub assign_to :
    (AuditPayload → String)
    → Time
    → WorkerRecord
    → String
    → JobRecord
    → TaskRecord
    → Engine
    → Engine × Result (Option Assignment)
unfolding try_preempt_lower_priority assign_checked worker_at_capacity
assign_to digest now worker worker_id job t e =
    let (e', preempted) = try_preempt_lower_priority digest now worker t e in
    if e.preempt && worker_at_capacity worker
    then if preempted then assign_checked digest now worker worker_id job t e' else (e', ok none)
    else assign_checked digest now worker worker_id job t e

-- the guards before the policy is asked
unfoldable pub may_assign :
    Time → Scores → String → String → JobRecord → TaskRecord → MemoryStore → Bool
may_assign now scores worker_id job_id job t s =
    let best = best_worker_for_task scores job t s in
    status_eq job.status running
    && status_eq t.status queued
    && not (not (is_zero t.lease_expires) && ltb now t.lease_expires)
    && dependencies_completed job_id t.dependencies s
    && not (not (is_empty best) && not (str_eq best worker_id))

unfoldable pub try_assign :
    (AuditPayload → String)
    → Scores
    → Time
    → String
    → TaskRef
    → Engine
    → Engine × Result (Option Assignment)
unfolding may_assign assign_to
try_assign digest scores now worker_id ref e = elim (get_job ref.job_id e.store) [
  | none ↦ (e, ok none)
  | some job ↦ elim (get_task ref.job_id ref.task_id e.store) [
    | none ↦ (e, ok none)
    | some t ↦ elim (get_worker worker_id e.store) [
      | none ↦ (e, ok none)
      | some worker ↦
          if may_assign now scores worker_id ref.job_id job t e.store
          then assign_to digest now worker worker_id job t e
          else (e, ok none)
    ]
  ]
]
