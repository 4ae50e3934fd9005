-- ===== src/Scheduler/Report/Replay.antt =====
-- A report that is sent again, and a report that comes late (internal/scheduler/engine.go).
use splai.Base.{◌≤◌, ◌≡◌, refl, ◌∙◌, ap, false, some, [], ◌∷◌, ◌++◌, arith, ok}
use splai.State.{Time, queued, running, completed, status_eq, JobRecord, TaskRecord}
use splai.Queue.{enqueue_many}
use splai.Store.{get_job, get_task}
use splai.Store.Tables.{IsKeyed, get_task-named}
use splai.Scheduler.Engine.{Engine, ref_of}
use splai.Scheduler.Report.{
  ReportTaskResultRequest, reported, retry, verdict, judged, finish_attempt, accept_report,
  accepted, guard, guarded, report_task_result,
}
use splai.Scheduler.Report.Guards.{report_found, get_task-finish_attempt}

-- a job and a task that the store holds under the names of a report
abbrev pub IsFound : ReportTaskResultRequest → Engine → JobRecord → TaskRecord → Type 0
IsFound req e job task =
    (get_job req.job_id e.store ≡ some job) × (get_task req.job_id req.task_id e.store ≡ some task)

-- after an accepted report the job is still found, and its task carries the report's key
record IsStamped (req : ReportTaskResultRequest) (e : Engine) : Type 0 where
  job : JobRecord
  task : TaskRecord
  found : IsFound req e job task
  stamped : task.last_report_key ≡ req.idempotency_key

pub accepted_lem :
    (now : Time) (req : ReportTaskResultRequest) (e : Engine) (job : JobRecord) (task : TaskRecord)
    → IsFound req e job task
    → guard req task job ≡ accepted
    → report_task_result now req e ≡ (accept_report now req task job e, ok tt)
unfolding guarded
accepted_lem now req e job task f g =
    report_found now req e job task f.0 f.1 ∙ ap (λ g. guarded now req g task job e) g

verdict-retry :
    (req : ReportTaskResultRequest) (t : TaskRecord)
    → status_eq req.status completed ≡ false
    → t.attempt ≤ t.max_retries
    → verdict req t ≡ retry
unfolding verdict
verdict-retry req t comp room = ground arith

accept-retry :
    (now : Time) (req : ReportTaskResultRequest) (task : TaskRecord) (job : JobRecord) (e : Engine)
    → status_eq req.status running ≡ false
    → status_eq req.status completed ≡ false
    → task.attempt ≤ task.max_retries
    → accept_report now req task job e ≡ finish_attempt now req retry (reported now req task) job e
unfolding accept_report reported
accept-retry now req task job e run comp room = rw run (
    ap (λ v. finish_attempt now req v (reported now req task) job e)
      (verdict-retry req (reported now req task) comp room))

queue-retry :
    (now : Time) (req : ReportTaskResultRequest) (t : TaskRecord) (job : JobRecord) (e : Engine)
    → (finish_attempt now req retry t job e).queue.items ≡ e.queue.items ++ ref_of t ∷ []
unfolding finish_attempt enqueue_many judged
queue-retry now req t job e = refl

-- Completion is not final for a task: a later report on a completed task that passes the guards
-- and says neither that it runs nor that it completed takes the task back to the queue as long as
-- its attempts do not exceed its retries.
pub report_reopens :
    (now : Time) (req : ReportTaskResultRequest) (e : Engine) (job : JobRecord) (task : TaskRecord)
    → IsKeyed e.store
    → IsFound req e job task
    → task.status ≡ completed
    → guard req task job ≡ accepted
    → status_eq req.status running ≡ false
    → status_eq req.status completed ≡ false
    → task.attempt ≤ task.max_retries
    → let e' = (report_task_result now req e).0 in
      ((t : TaskRecord) × (get_task req.job_id req.task_id e'.store ≡ some t) × (t.status ≡ queued))
      × (e'.queue.items ≡ e.queue.items ++ ref_of task ∷ [])
unfolding reported judged
report_reopens now req e job task k f was g run comp room =
    let (p, q) = get_task-named req.job_id req.task_id e.store task k f.1 in
    let t = reported now req task in
    rw (accepted_lem now req e job task f g) (
      rw (accept-retry now req task job e run comp room) (
        (
          record (judged now retry t) { updated_at = now },
          get_task-finish_attempt now req retry t job e req.job_id req.task_id p q,
          refl,
        ),
        queue-retry now req t job e,
      ))
