-- ===== src/Scheduler/Report/Guards.antt =====
-- Which reports `ReportTaskResult` of internal/scheduler/engine.go takes, and what an accepted one
-- leaves in the store.
use splai.Base.{
  String, ◌≡◌, ◌≢◌, ◌⊎◌, inl, inr, refl, ◌∙◌, ap, true, none, some, List, arith, eq_iff, is_empty,
  Option-cases, Result,
}
use splai.State.{Time, canceled, archived, JobRecord, TaskRecord}
use splai.Store.{MemoryStore, get_job, get_task, update_task, upsert_worker}
use splai.Store.Tables.{get_task-update_job, get_task-update_task}
use splai.Scheduler.Engine.{Engine}
use splai.Scheduler.Progress.{outcome}
use splai.Scheduler.Report.{
  ReportTaskResultRequest, Verdict, done, retry, give_up, judged, learn_model, settled,
  retry_message, finish_attempt, Guard, ignored, stale, accepted, guard, guarded,
  report_task_result,
}

-- what the guards ask of a report, its task and its job
pub record IsAccepted (req : ReportTaskResultRequest) (e : Engine) : Type 0 where
  pub job : JobRecord
  pub task : TaskRecord
  pub job_found : get_job req.job_id e.store ≡ some job
  pub task_found : get_task req.job_id req.task_id e.store ≡ some task
  pub job_open : (job.status ≢ canceled) × (job.status ≢ archived)
  pub key_fresh :
      (is_empty req.idempotency_key ≡ true) ⊎ (task.last_report_key ≢ req.idempotency_key)
  pub lease_held :
      (is_empty req.lease_id ≡ true)
      ⊎ (is_empty task.lease_id ≡ true)
      ⊎ (req.lease_id ≡ task.lease_id)

pub guard-accepted :
    (req : ReportTaskResultRequest) (task : TaskRecord) (job : JobRecord)
    → guard req task job ≡ accepted
    → ((job.status ≢ canceled) × (job.status ≢ archived))
      × ((is_empty req.idempotency_key ≡ true) ⊎ (task.last_report_key ≢ req.idempotency_key))
      × ((is_empty req.lease_id ≡ true)
          ⊎ (is_empty task.lease_id ≡ true)
          ⊎ (req.lease_id ≡ task.lease_id))
unfolding guard
guard-accepted req task job h =
    ground
      (arith, eq_iff task.last_report_key req.idempotency_key, eq_iff req.lease_id task.lease_id)

guarded-same :
    (now : Time) (req : ReportTaskResultRequest) (g : Guard) (task : TaskRecord) (job : JobRecord)
    (e : Engine)
    → g ≢ accepted
    → (guarded now req g task job e).0 ≡ e
unfolding guarded
guarded-same now req ignored task job e h = refl
guarded-same now req stale task job e h = refl
guarded-same now req accepted task job e h = absurd (h refl)

pub Guard-cases : (g : Guard) → (g ≡ accepted) ⊎ (g ≢ accepted)
Guard-cases accepted = inl refl
Guard-cases ignored = inr (λ h. cc)
Guard-cases stale = inr (λ h. cc)

module _ (now : Time) (req : ReportTaskResultRequest) (e : Engine) where
  pub report_found :
      (job : JobRecord) (task : TaskRecord)
      → get_job req.job_id e.store ≡ some job
      → get_task req.job_id req.task_id e.store ≡ some task
      → report_task_result now req e ≡ guarded now req (guard req task job) task job e
  unfolding report_task_result
  report_found job task p q = rw (p, report_task_result) (rw q)

  report_lost :
      (get_job req.job_id e.store ≡ none)
        ⊎ ((job : JobRecord) × (get_job req.job_id e.store ≡ some job)
            × (get_task req.job_id req.task_id e.store ≡ none))
      → (report_task_result now req e).0 ≡ e
  unfolding report_task_result
  report_lost (inl p) = rw (p, report_task_result)
  report_lost (inr (job, p, q)) = rw (p, report_task_result) (rw q)

  IsAccepted-or_same :
      (job : JobRecord) (task : TaskRecord)
      → get_job req.job_id e.store ≡ some job
      → get_task req.job_id req.task_id e.store ≡ some task
      → IsAccepted req e ⊎ ((report_task_result now req e).0 ≡ e)
  IsAccepted-or_same job task p q = elim (Guard-cases (guard req task job)) [
    | inl g ↦
        let (open_, fresh, held) = guard-accepted req task job g in
        inl (record {
          job = job;
          task = task;
          job_found = p;
          task_found = q;
          job_open = open_;
          key_fresh = fresh;
          lease_held = held;
        })
    | inr g ↦ inr (
        ap (λ (r : Engine × Result (Unit {0})). r.0) (report_found job task p q)
        ∙ guarded-same now req (guard req task job) task job e g)
  ]

-- A report changes the engine only if its job and its task exist, the job is neither canceled nor
-- archived, its idempotency key is empty or not that of the task's last report, and it names the
-- lease that the task holds, unless one of the two leases is empty.
pub report_task_result-guarded :
    (now : Time) (req : ReportTaskResultRequest) (e : Engine)
    → IsAccepted req e ⊎ ((report_task_result now req e).0 ≡ e)
report_task_result-guarded now req e = elim (Option-cases (get_job req.job_id e.store)) [
  | inl p ↦ inr (report_lost now req e (inl p))
  | inr (job, p) ↦ elim (Option-cases (get_task req.job_id req.task_id e.store)) [
    | inl q ↦ inr (report_lost now req e (inr (job, p, q)))
    | inr (task, q) ↦ IsAccepted-or_same now req e job task p q
  ]
]

-- learning a model changes neither jobs nor tasks
pub learn_model-same :
    (now : Time) (v : Verdict) (req : ReportTaskResultRequest) (t : TaskRecord) (s : MemoryStore)
    → ((learn_model now v req t s).jobs ≡ s.jobs) × ((learn_model now v req t s).tasks ≡ s.tasks)
unfolding learn_model upsert_worker
learn_model-same now done req t s = ground arith
learn_model-same now retry req t s = (refl, refl)
learn_model-same now give_up req t s = (refl, refl)

pub get_task_of_tasks :
    (j k : String) (s s' : MemoryStore) → s'.tasks ≡ s.tasks → get_task j k s' ≡ get_task j k s
unfolding get_task
get_task_of_tasks j k s s' e = ap (λ tables. get_task j k (record s { tasks = tables })) e

pub get_job_of_jobs :
    (id : String) (s s' : MemoryStore) → s'.jobs ≡ s.jobs → get_job id s' ≡ get_job id s
unfolding get_job
get_job_of_jobs id s s' e = ap (λ jobs. get_job id (record s { jobs = jobs })) e

pub judged-named :
    (now : Time) (v : Verdict) (t : TaskRecord)
    → ((judged now v t).job_id ≡ t.job_id)
      × ((judged now v t).task_id ≡ t.task_id)
      × ((judged now v t).last_report_key ≡ t.last_report_key)
unfolding judged
judged-named now done t = (refl, refl, refl)
judged-named now retry t = (refl, refl, refl)
judged-named now give_up t = (refl, refl, refl)

-- the task stands in the store as it was judged
pub get_task-finish_attempt :
    (now : Time) (req : ReportTaskResultRequest) (v : Verdict) (t : TaskRecord) (job : JobRecord)
    (e : Engine) (j k : String)
    → t.job_id ≡ j
    → t.task_id ≡ k
    → get_task j k (finish_attempt now req v t job e).store
      ≡ some (record (judged now v t) { updated_at = now })
unfolding finish_attempt
get_task-finish_attempt now req v t job e j k p q =
    let task = judged now v t in
    let s = update_task now task e.store in
    let (jobs, tasks) = learn_model-same now v req task s in
    let (named_job, named_task, _) = judged-named now v t in
    get_task-update_job now (learn_model now v req task s) _ j k
    ∙ get_task_of_tasks j k s (learn_model now v req task s) tasks
    ∙ get_task-update_task now e.store task j k
    ∙ ground (arith, eq_iff task.job_id j, eq_iff task.task_id k, named_job, named_task)

pub settled-id :
    (v : Verdict) (t : TaskRecord) (job : JobRecord) (ts : List TaskRecord)
    → (settled v (outcome ts) ts (retry_message v t job)).id ≡ job.id
unfolding settled
settled-id done t job ts = ground arith
settled-id retry t job ts = ground arith
settled-id give_up t job ts = ground arith
