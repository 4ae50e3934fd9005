-- ===== src/Scheduler/Submit/Accepted.antt =====
-- What `AddJob` of internal/scheduler/engine.go does with a submission.
use splai.Base.{
  member, String, ◌≡◌, ◌≢◌, refl, sym, subst, ◌∙◌, ap, Bool, true, false, ◌&&◌, ◌||◌, not, some,
  List, [], ◌∷◌, ◌++◌, ◌⧺◌, arith, if◌then◌else◌, eq_iff, inl, inr, ◌⊎◌, Bool-cases, lookup, insert,
  lookup-insert, eq_refl, Result, ok, err,
}
use mathlib.Core.List.{Memᴰ}
use splai.State.{TaskRef, Time, TaskRecord, AuditEventRecord}
use splai.Store.{
  AuditPayload, get_job, get_task, add_tasks, create_job_with_tasks, stamp, append_audit_event,
}
use splai.Queue.{enqueue_many}
use splai.Policy.{is_noop}
use splai.Planner.{Task, Dag}
use splai.Scheduler.Engine.{Engine}
use splai.Scheduler.Submit.{
  Submission, task_record, task_records, initial_refs, no_dependencies, job_record, submit_decision,
  audited, append_policy_audit, create_job, add_job,
}

-- no identifier stands twice in the plan
abbrev pub distinct_ids : List String → List Task → Bool
distinct_ids seen [] = true
distinct_ids seen (t ∷ ts) = not (member t.task_id seen) && distinct_ids (t.task_id ∷ seen) ts

module _ (now : Time) (sub : Submission) where
  lookup-seen :
      (k : String) (seen : List String) (ts : List Task) (m : List (String × TaskRecord))
      → member k seen ≡ true
      → distinct_ids seen ts ≡ true
      → lookup k (add_tasks now (task_records now sub ts) m) ≡ lookup k m
  unfolding add_tasks task_records task_record
  lookup-seen k seen [] m h d = refl
  lookup-seen k seen (t ∷ ts) m h d =
      let row = record (task_record now sub t) { created_at = stamp now now; updated_at = now } in
      lookup-seen k (t.task_id ∷ seen) ts (insert t.task_id row m) (ground arith) (ground arith)
      ∙ ground (arith, lookup-insert t.task_id k row m, eq_iff t.task_id k)

  lookup-record :
      (t : Task) (seen : List String) (ts : List Task) (m : List (String × TaskRecord))
      → Memᴰ t ts
      → distinct_ids seen ts ≡ true
      → lookup t.task_id (add_tasks now (task_records now sub ts) m) ≡ some (task_record now sub t)
  unfolding add_tasks task_records task_record
  lookup-record t seen [] m i d = elim i [ ]
  lookup-record t seen (u ∷ ts) m (Memᴰ.head e) d =
      let row = record (task_record now sub u) { created_at = stamp now now; updated_at = now } in
      lookup-seen t.task_id (u.task_id ∷ seen) ts (insert u.task_id row m)
        (ground (arith, ap (λ (x : Task). x.task_id) e, eq_refl t.task_id)) (ground arith)
      ∙ ground (
        arith,
        lookup-insert u.task_id t.task_id row m,
        eq_iff u.task_id t.task_id,
        ap (λ (x : Task). x.task_id) e,
        ap (task_record now sub) e,
      )
  lookup-record t seen (u ∷ ts) m (Memᴰ.tail i) d =
      let row = record (task_record now sub u) { created_at = stamp now now; updated_at = now } in
      lookup-record t (u.task_id ∷ seen) ts (insert u.task_id row m) i (ground arith)

  -- the references of exactly the tasks without dependencies, in the order of the plan
  pub data AreInitial : List Task → List TaskRef → Type 0 where
    done : AreInitial [] []
    waits :
        {t : Task} {ts : List Task} {refs : List TaskRef}
        → t.dependencies ≢ []
        → AreInitial ts refs
        → AreInitial (t ∷ ts) refs
    starts :
        {t : Task} {ts : List Task} {refs : List TaskRef}
        → t.dependencies ≡ []
        → AreInitial ts refs
        → AreInitial (t ∷ ts) (record { job_id = sub.id; task_id = t.task_id } ∷ refs)

  initial_refs-AreInitial : (ts : List Task) → AreInitial ts (initial_refs sub.id ts)
  unfolding initial_refs
  initial_refs-AreInitial [] = done
  initial_refs-AreInitial (t ∷ ts) = elim (Bool-cases (no_dependencies t.dependencies)) [
    | inl n ↦ rw n (starts (ground arith) (initial_refs-AreInitial ts))
    | inr n ↦ rw n (waits (λ h. ground (arith, h)) (initial_refs-AreInitial ts))
  ]

  -- the state after the job is created: its record, its tasks, its first references
  pub record IsCreated (dag : Dag) (e e' : Engine) : Type 0 where
    pub job : get_job sub.id e'.store ≡ some (job_record now sub dag.tasks)
    pub tasks :
        (t : Task)
        → Memᴰ t dag.tasks
        → get_task sub.id t.task_id e'.store ≡ some (task_record now sub t)
    pub queue :
        (refs : List TaskRef) × (e'.queue ≡ record e.queue { items = e.queue.items ++ refs })
        × AreInitial dag.tasks refs
    pub other_jobs : (id : String) → id ≢ sub.id → get_job id e'.store ≡ get_job id e.store
    pub other_tasks : (id k : String) → id ≢ sub.id → get_task id k e'.store ≡ get_task id k e.store

  create_job-IsCreated :
      (dag : Dag) (e : Engine)
      → distinct_ids [] dag.tasks ≡ true
      → IsCreated dag e (create_job now sub dag e)
  unfolding create_job create_job_with_tasks get_job get_task job_record enqueue_many
  create_job-IsCreated dag e d =
      let job = job_record now sub dag.tasks in
      let row = record job { created_at = stamp now job.created_at; updated_at = now } in
      let rows = add_tasks now (task_records now sub dag.tasks) [] in
      record {
        job = ground (arith, lookup-insert sub.id sub.id row e.store.jobs, eq_refl sub.id);
        tasks = λ t i. ground (
          arith,
          lookup-insert sub.id sub.id rows e.store.tasks,
          eq_refl sub.id,
          lookup-record t [] dag.tasks [] i d,
        );
        queue = (initial_refs sub.id dag.tasks, refl, initial_refs-AreInitial dag.tasks);
        other_jobs =
            λ id n. ground (arith, lookup-insert sub.id id row e.store.jobs, eq_iff sub.id id, n);
        other_tasks = λ id k n.
            ground (arith, lookup-insert sub.id id rows e.store.tasks, eq_iff sub.id id, n);
      }

-- the state after a submission is denied: only the audit log has grown
pub record IsRefused (e e' : Engine) : Type 0 where
  pub jobs : e'.store.jobs ≡ e.store.jobs
  pub tasks : e'.store.tasks ≡ e.store.tasks
  pub workers : e'.store.workers ≡ e.store.workers
  pub queue : e'.queue ≡ e.queue
  pub logged :
      (ev : AuditEventRecord) × (e'.store.audits ≡ e.store.audits ++ ev ∷ []) × (ev.result ≡ "deny")

-- whether the policy lets the submission in
abbrev pub admits : Submission → Engine → Bool
admits sub e = is_noop e.policy || (submit_decision sub e).allowed

module _ (digest : AuditPayload → String) (now : Time) (sub : Submission) (dag : Dag)
    (e : Engine) where
  audited-IsRefused :
      (submit_decision sub e).allowed ≡ false → IsRefused e (audited digest now sub e)
  unfolding audited append_policy_audit append_audit_event
  audited-IsRefused h = record {
    jobs = refl;
    tasks = refl;
    workers = refl;
    queue = refl;
    logged = (_, refl, ground arith);
  }

  audited-IsCreated :
      distinct_ids [] dag.tasks ≡ true
      → IsCreated now sub dag e (create_job now sub dag (audited digest now sub e))
  unfolding audited append_policy_audit append_audit_event get_job get_task
  audited-IsCreated d =
      let c = create_job-IsCreated now sub dag (audited digest now sub e) d in
      record {
        job = c.job;
        tasks = c.tasks;
        queue = c.queue;
        other_jobs = c.other_jobs;
        other_tasks = c.other_tasks;
      }

-- what comes of a submission: the engine afterwards, and the answer
abbrev pub Submitted : Time → Submission → Dag → Engine → Engine × Result (Unit {0}) → Type 0
Submitted now sub dag e (e', r) =
    ((admits sub e ≡ true) × (r ≡ ok tt) × IsCreated now sub dag e e')
    ⊎ ((admits sub e ≡ false)
        × (r ≡ err ("policy denied submit: " ⧺ (submit_decision sub e).reason_code))
        × IsRefused e e')

if_true : {A : Type 0} {b : Bool} {x : A} (y : A) → b ≡ true → (if b then x else y) ≡ x
if_true {b} y h = rw h

if_false : {A : Type 0} {b : Bool} (x : A) {y : A} → b ≡ false → (if b then x else y) ≡ y
if_false {b} x h = rw h

-- `AddJob` with a plan in which no identifier stands twice either creates the job: it is stored with
-- each task of the plan, waiting and unclaimed, exactly the tasks without dependencies are appended
-- to the queue, and the other jobs and their tasks stay as they are; this is so if the policy is a
-- noop or allows the submission. Or it fails, changes no job, no task, no worker and not the queue,
-- and logs the denial; this is so if the policy denies the submission.
pub add_job-cases :
    (digest : AuditPayload → String) (now : Time) (sub : Submission) (dag : Dag) (e : Engine)
    → distinct_ids [] dag.tasks ≡ true
    → Submitted now sub dag e (add_job digest now sub dag e)
unfolding add_job
add_job-cases digest now sub dag e d = elim (Bool-cases (is_noop e.policy)) [
  | inl n ↦
      subst (Submitted now sub dag e) (sym (if_true _ n))
        (inl (ground arith, refl, create_job-IsCreated now sub dag e d))
  | inr n ↦ elim (Bool-cases (submit_decision sub e).allowed) [
    | inl a ↦
        subst (Submitted now sub dag e) (sym (if_false _ n ∙ if_true _ a))
          (inl (ground arith, refl, audited-IsCreated digest now sub dag e d))
    | inr a ↦
        subst (Submitted now sub dag e) (sym (if_false _ n ∙ if_false _ a))
          (inr (ground arith, refl, audited-IsRefused digest now sub dag e a))
  ]
]
