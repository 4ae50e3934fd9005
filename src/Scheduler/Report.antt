-- ===== src/Scheduler/Report.antt =====
-- `ReportTaskResult` of internal/scheduler/engine.go.
pub mod Guards
pub mod Wakeups
pub mod Replay
use splai.Base.{
  ℕ, ◌+◌, String, ◌⧺◌, Bool, true, false, ◌&&◌, ◌||◌, not, Option, none, some, List, [], ◌∷◌, ◌++◌,
  ltb, leb, ◌==◌, if◌then◌else◌, length, str_eq, is_empty, trim_space, equal_fold, has_prefix,
  Result, ok, err,
}
use splai.State.{
  Time, Status, queued, assigned, running, completed, failed, canceled, archived, other, status_eq,
  JobRecord, TaskRecord, TaskRef, WorkerRecord,
}
use splai.Queue.{enqueue, enqueue_many}
use splai.Store.{
  MemoryStore, get_job, update_job, get_task, update_task, list_tasks_by_job, get_worker,
  upsert_worker,
}
use splai.Scheduler.Engine.{Engine, retry_backoff, ref_of, input, dependencies_completed}
use splai.Scheduler.Progress.{
  Outcome, has_failed, has_completed, goes_on, outcome, tally, no_tally, or_text, is_closed,
}

pub record ReportTaskResultRequest : Type 0 where
  pub worker_id : String
  pub job_id : String
  pub task_id : String
  pub lease_id : String
  pub idempotency_key : String
  pub status : Status
  pub output_artifact_uri : String
  pub error : String

-- strings.EqualFold of the trimmed texts, for some item
unfoldable pub contains_folded : List String → String → Bool
contains_folded [] v = false
contains_folded (x ∷ xs) v = equal_fold (trim_space x) (trim_space v) || contains_folded xs v

-- the fields that every accepted report sets
unfoldable pub reported : Time → ReportTaskResultRequest → TaskRecord → TaskRecord
reported now req t = record t {
  output_uri = req.output_artifact_uri;
  error = req.error;
  last_report_key = req.idempotency_key;
  updated_at = now;
  lease_id = "";
  lease_expires = 0;
}

-- what becomes of a task whose attempt has ended
pub data Verdict : Type 0 where
  done retry give_up : Verdict

unfoldable pub verdict : ReportTaskResultRequest → TaskRecord → Verdict
verdict req t =
    if status_eq req.status completed
    then done
    else if leb t.attempt t.max_retries
    then retry
    else give_up

unfoldable pub judged : Time → Verdict → TaskRecord → TaskRecord
judged now done t = record t { status = completed }
judged now retry t = record t {
  status = queued;
  worker_id = "";
  lease_expires = now + retry_backoff t.attempt;
}
judged now give_up t = record t { status = failed }

-- A worker that has downloaded a model is recorded as having it.
unfoldable pub learn_model :
    Time → Verdict → ReportTaskResultRequest → TaskRecord → MemoryStore → MemoryStore
unfolding contains_folded
learn_model now done req t s =
    let model = trim_space (input "model" t) in
    if equal_fold t.type "model_download"
      && not (is_empty (trim_space req.worker_id))
      && not (is_empty model)
    then elim (get_worker req.worker_id s) [
      | none ↦ s
      | some w ↦
          if contains_folded w.models model
          then s
          else upsert_worker now (record w { models = w.models ++ model ∷ [] }) s
    ]
    else s
learn_model now _ req t s = s

-- the queued tasks whose dependencies are all completed
unfoldable pub ready_refs : List TaskRecord → MemoryStore → List TaskRef
ready_refs [] s = []
ready_refs (t ∷ ts) s =
    let rest = ready_refs ts s in
    if status_eq t.status queued && dependencies_completed t.job_id t.dependencies s
    then ref_of t ∷ rest
    else rest

unfoldable pub wake : Verdict → List TaskRecord → MemoryStore → List TaskRef
unfolding ready_refs
wake done ts s = ready_refs ts s
wake _ ts s = []

-- the message of a job that goes on
unfoldable pub progress_message : Verdict → String → String
progress_message done message =
    let m = if has_prefix message "retrying task " then "in progress" else message in
    if is_empty (trim_space m) then "in progress" else m
progress_message _ message = if is_empty (trim_space message) then "in progress" else message

-- the job's record at the end of `ReportTaskResult`
unfoldable pub settled : Verdict → Outcome → List TaskRecord → JobRecord → JobRecord
unfolding progress_message
settled v has_failed ts job = record job {
  status = failed;
  message = or_text job.message "one or more tasks failed";
}
settled v has_completed ts job = record job {
  status = completed;
  message = "all tasks completed";
  result_artifact_uri = (tally ts no_tally).last_output;
}
settled v goes_on ts job = record job { status = running; message = progress_message v job.message }

abbrev pub retry_message : Verdict → TaskRecord → JobRecord → JobRecord
retry_message retry t job = record job { message = "retrying task " ⧺ t.task_id }
retry_message _ t job = job

abbrev pub requeued : Verdict → TaskRecord → List TaskRef
requeued retry t = ref_of t ∷ []
requeued _ t = []

-- An attempt has ended: the task is judged and written, its successors or itself go to the queue,
-- and the job is settled from all of its tasks.
unfoldable pub finish_attempt :
    Time → ReportTaskResultRequest → Verdict → TaskRecord → JobRecord → Engine → Engine
unfolding judged learn_model wake settled outcome
finish_attempt now req v t job e =
    let task = judged now v t in
    let s₁ = learn_model now v req task (update_task now task e.store) in
    let ts = list_tasks_by_job req.job_id s₁ in
    record e {
      store = update_job now (settled v (outcome ts) ts (retry_message v task job)) s₁;
      queue = enqueue_many (requeued v task ++ wake v ts s₁) e.queue;
    }

-- a report that passed the guards
unfoldable pub accept_report :
    Time → ReportTaskResultRequest → TaskRecord → JobRecord → Engine → Engine
unfolding reported verdict finish_attempt
accept_report now req task job e =
    let t = reported now req task in
    if status_eq req.status running
    then record e {
      store = update_task now (record t { status = running; worker_id = req.worker_id }) e.store;
    }
    else finish_attempt now req (verdict req t) t job e

-- the guards on a report
pub data Guard : Type 0 where
  ignored stale accepted : Guard

unfoldable pub guard : ReportTaskResultRequest → TaskRecord → JobRecord → Guard
guard req task job =
    if is_closed job.status
    then ignored
    else if not (is_empty req.idempotency_key) && str_eq task.last_report_key req.idempotency_key
    then ignored
    else if not (is_empty req.lease_id)
        && not (is_empty task.lease_id)
        && not (str_eq req.lease_id task.lease_id)
    then stale
    else accepted

pub guarded :
    Time
    → ReportTaskResultRequest
    → Guard
    → TaskRecord
    → JobRecord
    → Engine
    → Engine × Result (Unit {0})
unfolding accept_report
guarded now req ignored task job e = (e, ok tt)
guarded now req stale task job e = (e, err ("stale lease for task " ⧺ req.task_id))
guarded now req accepted task job e = (accept_report now req task job e, ok tt)

unfoldable pub report_task_result :
    Time → ReportTaskResultRequest → Engine → Engine × Result (Unit {0})
unfolding guarded guard
report_task_result now req e = elim (get_job req.job_id e.store) [
  | none ↦ (e, err ("job " ⧺ (req.job_id ⧺ " not found")))
  | some job ↦ elim (get_task req.job_id req.task_id e.store) [
    | none ↦ (e, err ("task " ⧺ (req.task_id ⧺ " not found")))
    | some task ↦ guarded now req (guard req task job) task job e
  ]
]
