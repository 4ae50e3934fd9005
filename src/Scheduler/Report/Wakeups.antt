-- ===== src/Scheduler/Report/Wakeups.antt =====
-- What a finished attempt does to the rest of its job (internal/scheduler/engine.go): which tasks
-- become ready, and what the job's record then says.
use mathlib.Core.List.{Memᴰ}
use splai.Base.{
  String, ◌≡◌, inl, inr, refl, sym, ◌∙◌, ap, subst, Bool, true, false, ◌&&◌, some, List, [], ◌∷◌,
  arith, if◌then◌else◌, eq_iff, Bool-cases,
}
use splai.State.{
  Time, Status, queued, running, completed, failed, status_eq, JobRecord, TaskRecord, TaskRef,
}
use splai.Queue.{enqueue_many}
use splai.Store.{MemoryStore, get_job, update_job, get_task, update_task, list_tasks_by_job}
use splai.Store.Tables.{IsKeyed, get_job-update_job, get_job-named}
use splai.Scheduler.Sweep.{mem-append_right}
use splai.Scheduler.Engine.{Engine, ref_of, dependencies_completed}
use splai.Scheduler.Progress.{Outcome, has_failed, has_completed, goes_on, outcome}
use splai.Scheduler.Report.{
  ReportTaskResultRequest, reported, Verdict, done, verdict, judged, learn_model, settled,
  retry_message, finish_attempt, accept_report, accepted, guard, report_task_result, wake,
  ready_refs,
}
use splai.Scheduler.Report.Guards.{settled-id}
use splai.Scheduler.Report.Replay.{IsFound, accepted_lem}

-- the task waits, and nothing that it depends on is still open
abbrev pub IsReady : MemoryStore → TaskRecord → Type 0
IsReady s t = (t.status ≡ queued) × (dependencies_completed t.job_id t.dependencies s ≡ true)

abbrev is_ready : MemoryStore → TaskRecord → Bool
is_ready s t = status_eq t.status queued && dependencies_completed t.job_id t.dependencies s

IsReady-test : (s : MemoryStore) (t : TaskRecord) → IsReady s t → is_ready s t ≡ true
IsReady-test s t r = ground arith

IsReady-tested : (s : MemoryStore) (t : TaskRecord) → is_ready s t ≡ true → IsReady s t
IsReady-tested s t h = ground arith

-- a ready task is among the references
ready_refs-mem :
    (s : MemoryStore) {t : TaskRecord} {ts : List TaskRecord}
    → Memᴰ t ts
    → IsReady s t
    → Memᴰ (ref_of t) (ready_refs ts s)
unfolding ready_refs
ready_refs-mem s {t} (Memᴰ.head {xs = xs} e) r =
    subst
      (λ x. Memᴰ (ref_of t) (if is_ready s x then ref_of x ∷ ready_refs xs s else ready_refs xs s))
      e (rw (IsReady-test s t r) (Memᴰ.head refl))
ready_refs-mem s (Memᴰ.tail {x = x} m) r = elim (Bool-cases (is_ready s x)) [
  | inl b ↦ rw b (Memᴰ.tail (ready_refs-mem s m r))
  | inr b ↦ rw b (ready_refs-mem s m r)
]

-- and a reference is that of a ready task
mem-ready_refs :
    (s : MemoryStore) (ts : List TaskRecord) {r : TaskRef}
    → Memᴰ r (ready_refs ts s)
    → (t : TaskRecord) × Memᴰ t ts × (r ≡ ref_of t) × IsReady s t
unfolding ready_refs
mem-ready_refs s [] (m) = elim m [ ]
mem-ready_refs s (x ∷ ts) {r} m = elim (Bool-cases (is_ready s x)) [
  | inl b ↦ first b (mem-ready_refs s ts) (rw b at m)
  | inr b ↦ later (mem-ready_refs s ts (rw b at m))
]
  where
    later :
        (t : TaskRecord) × Memᴰ t ts × (r ≡ ref_of t) × IsReady s t
        → (t : TaskRecord) × Memᴰ t (x ∷ ts) × (r ≡ ref_of t) × IsReady s t
    later (t, n, e, i) = (t, Memᴰ.tail n, e, i)

    first :
        is_ready s x ≡ true
        → (Memᴰ r (ready_refs ts s) → (t : TaskRecord) × Memᴰ t ts × (r ≡ ref_of t) × IsReady s t)
        → Memᴰ r (ref_of x ∷ ready_refs ts s)
        → (t : TaskRecord) × Memᴰ t (x ∷ ts) × (r ≡ ref_of t) × IsReady s t
    first b ih (Memᴰ.head e) = (x, Memᴰ.head refl, e, IsReady-tested s x b)
    first b ih (Memᴰ.tail n) = later (ih n)

dependencies_completed-update_job :
    (now : Time) (job : JobRecord) (s : MemoryStore) (j : String) (deps : List String)
    → dependencies_completed j deps (update_job now job s) ≡ dependencies_completed j deps s
unfolding dependencies_completed update_job get_task
dependencies_completed-update_job now job s j [] = refl
dependencies_completed-update_job now job s j (d ∷ deps) =
    ground (arith, dependencies_completed-update_job now job s j deps)

list_tasks_by_job-update_job :
    (now : Time) (job : JobRecord) (s : MemoryStore) (j : String)
    → list_tasks_by_job j (update_job now job s) ≡ list_tasks_by_job j s
unfolding list_tasks_by_job update_job
list_tasks_by_job-update_job now job s j = refl

abbrev pub status_of : Outcome → Status
status_of has_failed = failed
status_of has_completed = completed
status_of goes_on = running

settled-status :
    (v : Verdict) (o : Outcome) (ts : List TaskRecord) (job : JobRecord)
    → (settled v o ts job).status ≡ status_of o
unfolding settled
settled-status v has_failed ts job = refl
settled-status v has_completed ts job = refl
settled-status v goes_on ts job = refl

-- A store that differs only in a job's record has the same ready tasks.
IsReady-update_job :
    (now : Time) (job : JobRecord) (s : MemoryStore) (t : TaskRecord)
    → IsReady (update_job now job s) t
    → IsReady s t
IsReady-update_job now job s t (q, d) =
    (q, sym (dependencies_completed-update_job now job s t.job_id t.dependencies) ∙ d)

accept-done :
    (now : Time) (req : ReportTaskResultRequest) (task : TaskRecord) (job : JobRecord) (e : Engine)
    → req.status ≡ completed
    → accept_report now req task job e ≡ finish_attempt now req done (reported now req task) job e
unfolding accept_report
accept-done now req task job e c = rw (ends req c) (
    ap (λ v. finish_attempt now req v (reported now req task) job e)
      (judges req (reported now req task) c))
  where
    ends :
        (req : ReportTaskResultRequest)
        → req.status ≡ completed
        → status_eq req.status running ≡ false
    ends req c = ground arith

    judges :
        (req : ReportTaskResultRequest) (t : TaskRecord)
        → req.status ≡ completed
        → verdict req t ≡ done
    judges req t c = unfold verdict in ground arith

-- the store before the job is settled
abbrev before_settling :
    Time → ReportTaskResultRequest → Verdict → TaskRecord → Engine → MemoryStore
before_settling now req v t e =
    learn_model now v req (judged now v t) (update_task now (judged now v t) e.store)

finish-wakes :
    (now : Time) (req : ReportTaskResultRequest) (u : TaskRecord) (job : JobRecord) (e : Engine)
    (t : TaskRecord)
    → let e' = finish_attempt now req done u job e in
      Memᴰ t (list_tasks_by_job req.job_id e'.store)
      → IsReady e'.store t
      → Memᴰ (ref_of t) e'.queue.items
unfolding finish_attempt enqueue_many wake
finish-wakes now req u job e t m r =
    let s = before_settling now req done u e in
    mem-append_right e.queue.items (
      ready_refs-mem s (subst (Memᴰ t) (list_tasks_by_job-update_job now _ s req.job_id) m)
        (IsReady-update_job now _ s t r))

finish-settles :
    (now : Time) (req : ReportTaskResultRequest) (v : Verdict) (t : TaskRecord) (job : JobRecord)
    (e : Engine)
    → job.id ≡ req.job_id
    → let e' = finish_attempt now req v t job e in
      (job' : JobRecord) × (get_job req.job_id e'.store ≡ some job')
      × (job'.status ≡ status_of (outcome (list_tasks_by_job req.job_id e'.store)))
unfolding finish_attempt
finish-settles now req v t job e n =
    let s = before_settling now req v t e in
    let ts = list_tasks_by_job req.job_id s in
    let job' = settled v (outcome ts) ts (retry_message v (judged now v t) job) in
    (
      record job' { updated_at = now },
      get_job-update_job now s job' req.job_id
          ∙ ground (arith, eq_iff job'.id req.job_id, settled-id v (judged now v t) job ts),
      settled-status v (outcome ts) ts (retry_message v (judged now v t) job)
          ∙ ap (λ ts. status_of (outcome ts))
              (sym (list_tasks_by_job-update_job now job' s req.job_id)),
    )

-- An accepted report that a task completed leaves no successor behind: after it, every waiting task
-- of the job whose dependencies have all completed stands in the queue.
pub report-wakes :
    (now : Time) (req : ReportTaskResultRequest) (e : Engine) (job : JobRecord) (task : TaskRecord)
    (t : TaskRecord)
    → IsFound req e job task
    → guard req task job ≡ accepted
    → req.status ≡ completed
    → let e' = (report_task_result now req e).0 in
      Memᴰ t (list_tasks_by_job req.job_id e'.store)
      → IsReady e'.store t
      → Memᴰ (ref_of t) e'.queue.items
report-wakes now req e job task t f g c =
    rw (accepted_lem now req e job task f g)
      (rw (accept-done now req task job e c) (finish-wakes now req (reported now req task) job e t))

-- Every accepted report but one that the task runs settles the job: its record then has the status
-- that the outcome of all of its tasks demands.
pub report-settles :
    (now : Time) (req : ReportTaskResultRequest) (e : Engine) (job : JobRecord) (task : TaskRecord)
    → IsKeyed e.store
    → IsFound req e job task
    → guard req task job ≡ accepted
    → status_eq req.status running ≡ false
    → let e' = (report_task_result now req e).0 in
      (job' : JobRecord) × (get_job req.job_id e'.store ≡ some job')
      × (job'.status ≡ status_of (outcome (list_tasks_by_job req.job_id e'.store)))
unfolding accept_report
report-settles now req e job task k f g run =
    rw (accepted_lem now req e job task f g, accept_report)
      (rw run (
        finish-settles now req (verdict req (reported now req task)) (reported now req task) job e
          (get_job-named req.job_id e.store job k f.0)))
