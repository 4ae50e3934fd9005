-- ===== src/Scheduler/Progress.antt =====
-- How a job follows from its tasks in internal/scheduler/engine.go: `reconcileJobStatus`, the end
-- of `ReportTaskResult`, and the expiry of leases (`requeueExpiredLeases`).
pub mod Outcomes
pub mod Expiry
use splai.Base.{
  ℕ, zero, suc, ◌+◌, ◌*◌, String, ◌⧺◌, Bool, true, false, ◌&&◌, ◌||◌, not, Option, none, some, List,
  [], ◌∷◌, ◌++◌, ltb, leb, ◌==◌, if◌then◌else◌, length, str_eq, is_empty, itoa,
}
use splai.State.{
  Time, second, Status, queued, assigned, running, completed, failed, canceled, archived, other,
  status_eq, JobRecord, TaskRecord, TaskRef,
}
use splai.Queue.{enqueue_many}
use splai.Store.{
  MemoryStore, get_job, update_job, update_task, list_tasks_by_job, list_expired_leased_tasks,
}
use splai.Scheduler.Engine.{Engine, retry_backoff, ref_of}
use splai.Scheduler.Leases.{lease_start_from_id}

-- what the loop over a job's tasks counts
pub record Tally : Type 0 where
  pub completed_count : ℕ
  pub failed_count : ℕ
  pub last_output : String

unfoldable pub tally_one : TaskRecord → Status → Tally → Tally
tally_one t completed c = record c {
  completed_count = c.completed_count + 1;
  last_output = if is_empty t.output_uri then c.last_output else t.output_uri;
}
tally_one t failed c = record c { failed_count = c.failed_count + 1 }
tally_one t _ c = c

unfoldable pub tally : List TaskRecord → Tally → Tally
unfolding tally_one
tally [] c = c
tally (t ∷ ts) c = tally ts (tally_one t t.status c)

abbrev pub no_tally : Tally
no_tally = record { completed_count = 0; failed_count = 0; last_output = "" }

-- what the tally says about the job: it failed, it completed, or it goes on
pub data Outcome : Type 0 where
  has_failed has_completed goes_on : Outcome

unfoldable pub outcome : List TaskRecord → Outcome
unfolding tally
outcome ts =
    let c = tally ts no_tally in
    if ltb 0 c.failed_count
    then has_failed
    else if c.completed_count == length ts && ltb 0 (length ts)
    then has_completed
    else goes_on

abbrev pub or_text : String → String → String
or_text text default = if is_empty text then default else text

-- the job's record after `reconcileJobStatus`
unfoldable pub reconciled : Outcome → List TaskRecord → JobRecord → JobRecord
unfolding tally
reconciled has_failed ts job = record job {
  status = failed;
  message = or_text job.message "one or more tasks failed";
}
reconciled has_completed ts job = record job {
  status = completed;
  message = "all tasks completed";
  result_artifact_uri = (tally ts no_tally).last_output;
}
reconciled goes_on ts job = record job { status = running }

-- jobs that no report and no expiry changes
abbrev pub is_closed : Status → Bool
is_closed canceled = true
is_closed archived = true
is_closed _ = false

unfoldable pub reconcile_job_status : Time → String → MemoryStore → MemoryStore
unfolding reconciled outcome
reconcile_job_status now id s = elim (get_job id s) [
  | none ↦ s
  | some job ↦
      if is_closed job.status
      then s
      else let ts = list_tasks_by_job id s in update_job now (reconciled (outcome ts) ts job) s
]

-- whether the timeout of the current attempt has passed
unfoldable pub timed_out : Time → TaskRecord → Bool
timed_out now t = elim (lease_start_from_id t.lease_id) [
  | none ↦ false
  | some start ↦ ltb 0 t.timeout_sec && leb (start + t.timeout_sec * second) now
]

-- the task gives up for good, or is queued again
abbrev pub gives_up : Time → TaskRecord → Bool
gives_up now t = timed_out now t && ltb t.max_retries t.attempt

-- a task whose lease has expired
unfoldable pub expire_task : Time → TaskRecord → TaskRecord
unfolding timed_out
expire_task now t =
    let free = record t { worker_id = ""; lease_id = ""; updated_at = now } in
    if gives_up now t
    then record free {
      status = failed;
      error = "task timed out after " ⧺ (itoa t.attempt ⧺ " attempt(s)");
    }
    else if timed_out now t
    then record free {
      status = queued;
      error = "task timed out, retrying attempt " ⧺ itoa (t.attempt + 1);
      lease_expires = now + retry_backoff t.attempt;
    }
    else record free { status = queued; lease_expires = 0 }

unfoldable pub expire_tasks : Time → List TaskRecord → MemoryStore → MemoryStore
unfolding expire_task
expire_tasks now [] s = s
expire_tasks now (t ∷ ts) s = expire_tasks now ts (update_task now (expire_task now t) s)

-- the tasks that are queued again
unfoldable pub expired_refs : Time → List TaskRecord → List TaskRef
unfolding timed_out
expired_refs now [] = []
expired_refs now (t ∷ ts) =
    let rest = expired_refs now ts in if gives_up now t then rest else ref_of t ∷ rest

-- the set of the jobs that are affected, as the keys of a map: each once
abbrev add_affected : String → List String → List String
add_affected id [] = id ∷ []
add_affected id (j ∷ js) = if str_eq j id then j ∷ js else j ∷ add_affected id js

affected_jobs : List TaskRecord → List String → List String
affected_jobs [] js = js
affected_jobs (t ∷ ts) js = affected_jobs ts (add_affected t.job_id js)

unfoldable pub reconcile_all : Time → List String → MemoryStore → MemoryStore
unfolding reconcile_job_status
reconcile_all now [] s = s
reconcile_all now (id ∷ ids) s = reconcile_all now ids (reconcile_job_status now id s)

unfoldable pub requeue_expired_leases : Time → Engine → Engine
unfolding expire_tasks expired_refs affected_jobs reconcile_all
requeue_expired_leases now e =
    let expired = list_expired_leased_tasks now e.store in
    let store = expire_tasks now expired e.store in
    record e {
      store = reconcile_all now (affected_jobs expired []) store;
      queue = enqueue_many (expired_refs now expired) e.queue;
    }
