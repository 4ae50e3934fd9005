-- ===== src/Scheduler/Submit.antt =====
-- `AddJob` of internal/scheduler/engine.go, with the audit of the policy's decision, and the
-- registration of workers.
pub mod Plans
pub mod Accepted
use splai.Base.{
  ℕ, String, ◌⧺◌, Bool, true, false, ◌&&◌, ◌||◌, not, Option, none, some, List, [], ◌∷◌, ◌++◌, ltb,
  if◌then◌else◌, length, is_empty, trim_space, itoa, Map, insert, Result, ok, err,
}
use splai.State.{Time, Status, queued, running, JobRecord, TaskRecord, TaskRef, AuditEventRecord}
use splai.Queue.{enqueue_many}
use splai.Store.{
  MemoryStore, AuditPayload, append_audit_event, count_jobs_by_tenant_status, create_job_with_tasks,
}
use splai.Policy.{Decision, SubmitInput, evaluate_submit, is_noop}
use splai.Planner.{Task, TaskResources, TaskConstraints, Dag}
use splai.Scheduler.Engine.{Engine}

-- the arguments of `AddJob` but the DAG
pub record Submission : Type 0 where
  pub id : String
  pub tenant : String
  pub req_type : String
  pub input : String
  pub policy_name : String
  pub priority : String
  pub data_classification : String
  pub model : String
  pub network_isolation : String

abbrev pub audit_message : Decision → String → String
audit_message d details =
    let msg = "reason=" ⧺ (d.reason_code ⧺ (" rule=" ⧺ (d.rule ⧺ (" details=" ⧺ details)))) in
    if is_empty d.message then msg else d.message ⧺ (" (" ⧺ (msg ⧺ ")"))

unfoldable pub append_policy_audit :
    (AuditPayload → String) → Time → String → String → Decision → String → MemoryStore → MemoryStore
append_policy_audit digest now tenant action d details s =
    append_audit_event digest now
      (record {
        id = 0;
        action = action;
        actor = "system/policy";
        tenant = tenant;
        remote_addr = "";
        resource = "policy";
        payload_hash = "";
        prev_hash = "";
        event_hash = "";
        requested = 0;
        result = if d.allowed then "allow" else "deny";
        details = audit_message d details;
        created_at = now;
      })
      s

abbrev put_if : Bool → String → String → Map String → Map String
put_if b k v m = if b then insert k v m else m

with_resources : Option TaskResources → Map String → Map String
with_resources none m = m
with_resources (some r) m =
    let cpu = put_if (ltb 0 r.cpu) "_resource_cpu" (itoa r.cpu) m in
    let memory = trim_space r.memory in
    let both = put_if (not (is_empty memory)) "_resource_memory" memory cpu in
    put_if r.gpu "_requires_gpu" "true" both

with_constraints : Option TaskConstraints → Map String → Map String
with_constraints none m = m
with_constraints (some c) m =
    let locality = trim_space c.data_locality in
    put_if (not (is_empty locality)) "_data_locality" locality m

-- the inputs of a task's record: those of the plan, and what the submission asks for
task_inputs : Submission → Task → Map String
unfolding with_resources with_constraints
task_inputs sub t =
    let prioritized = insert "_priority" sub.priority t.inputs in
    let classified =
      put_if (not (is_empty sub.data_classification)) "_data_classification" sub.data_classification
        prioritized in
    let modelled = put_if (not (is_empty sub.model)) "model" sub.model classified in
    let isolated =
      put_if (not (is_empty sub.network_isolation)) "_network_isolation" sub.network_isolation
        modelled in
    with_constraints t.constraints (with_resources t.resources isolated)

unfoldable pub task_record : Time → Submission → Task → TaskRecord
unfolding task_inputs
task_record now sub t = record {
  job_id = sub.id;
  task_id = t.task_id;
  type = t.type;
  inputs = task_inputs sub t;
  dependencies = t.dependencies;
  status = queued;
  worker_id = "";
  lease_id = "";
  lease_expires = 0;
  attempt = 0;
  max_retries = t.max_retries;
  timeout_sec = t.timeout_sec;
  output_uri = "";
  error = "";
  last_report_key = "";
  created_at = now;
  updated_at = now;
}

unfoldable pub task_records : Time → Submission → List Task → List TaskRecord
unfolding task_record
task_records now sub [] = []
task_records now sub (t ∷ ts) = task_record now sub t ∷ task_records now sub ts

abbrev pub no_dependencies : List String → Bool
no_dependencies [] = true
no_dependencies (d ∷ ds) = false

-- the tasks that wait for no other
unfoldable pub initial_refs : String → List Task → List TaskRef
initial_refs id [] = []
initial_refs id (t ∷ ts) =
    let rest = initial_refs id ts in
    if no_dependencies t.dependencies
    then record { job_id = id; task_id = t.task_id } ∷ rest
    else rest

unfoldable pub job_record : Time → Submission → List Task → JobRecord
job_record now sub tasks = record {
  id = sub.id;
  tenant = sub.tenant;
  type = sub.req_type;
  input = sub.input;
  policy = sub.policy_name;
  priority = sub.priority;
  status = if ltb 0 (length tasks) then running else queued;
  message = "";
  result_artifact_uri = "";
  created_at = now;
  updated_at = now;
}

unfoldable pub submit_decision : Submission → Engine → Decision
submit_decision sub e = evaluate_submit e.policy (record {
  tenant = sub.tenant;
  job_type = sub.req_type;
  priority = sub.priority;
  model = sub.model;
  data_classification = sub.data_classification;
  running_jobs = count_jobs_by_tenant_status sub.tenant running e.store;
})

-- the engine after the policy's decision is on record
unfoldable pub audited : (AuditPayload → String) → Time → Submission → Engine → Engine
unfolding append_policy_audit submit_decision
audited digest now sub e = record e {
  store =
      append_policy_audit digest now sub.tenant "policy_check_submit" (submit_decision sub e)
        ("job_id=" ⧺ (sub.id ⧺ (" job_type=" ⧺ sub.req_type))) e.store;
}

-- the part of `AddJob` behind the policy
unfoldable pub create_job : Time → Submission → Dag → Engine → Engine
unfolding task_records initial_refs job_record
create_job now sub dag e = record e {
  store =
      create_job_with_tasks now (job_record now sub dag.tasks) (task_records now sub dag.tasks)
        e.store;
  queue = enqueue_many (initial_refs sub.id dag.tasks) e.queue;
}

unfoldable pub add_job :
    (AuditPayload → String) → Time → Submission → Dag → Engine → Engine × Result (Unit {0})
unfolding audited create_job submit_decision
add_job digest now sub dag e =
    if is_noop e.policy
    then (create_job now sub dag e, ok tt)
    else if (submit_decision sub e).allowed
    then (create_job now sub dag (audited digest now sub e), ok tt)
    else (
      audited digest now sub e,
      err ("policy denied submit: " ⧺ (submit_decision sub e).reason_code),
    )
