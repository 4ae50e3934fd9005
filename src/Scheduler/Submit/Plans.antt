-- ===== src/Scheduler/Submit/Plans.antt =====
-- `AddJob` of internal/scheduler/engine.go on the plans of internal/planner/planner.go.
use splai.Base.{
  member, String, ◌≡◌, refl, sym, subst, ◌∙◌, ap, true, none, some, List, [], ◌∷◌, arith, inl, inr,
}
use mathlib.Core.List.{Memᴰ}
use splai.State.{Time, running, JobRecord, TaskRecord, TaskRef}
use splai.Store.{AuditPayload, get_job, get_task}
use splai.Queue.{MemoryQueue, enqueue_many}
use splai.Planner.{Task, Dag, Compiler, provided, compile_with_mode}
use splai.Planner.Order.{all_done, is_ordered, is_plan, compile_with_mode-is_plan}
use splai.Scheduler.Engine.{Engine}
use splai.Scheduler.Sweep.{mem-append_right}
use splai.Scheduler.Submit.{Submission, task_record, initial_refs, job_record, add_job}
use splai.Scheduler.Submit.Accepted.{AreInitial, distinct_ids, IsCreated, admits, add_job-cases}

pub ordered-distinct_ids :
    (seen : List String) (ts : List Task) → is_ordered seen ts ≡ true → distinct_ids seen ts ≡ true
ordered-distinct_ids seen [] h = refl
ordered-distinct_ids seen (t ∷ ts) h =
    ground (arith, ordered-distinct_ids (t.task_id ∷ seen) ts (ground arith))

-- a job that can start: it runs, and a stored task of it that waits for nothing is in the queue
pub record IsStarted (id : String) (e : Engine) : Type 0 where
  pub job : JobRecord
  pub task : TaskRecord
  pub ref : TaskRef
  pub job_found : get_job id e.store ≡ some job
  pub job_running : job.status ≡ running
  pub task_found : get_task id ref.task_id e.store ≡ some task
  pub task_free : task.dependencies ≡ []
  pub ref_named : ref.job_id ≡ id
  pub in_queue : Memᴰ ref e.queue.items

all_done_none : (ds : List String) → all_done (λ d. member d []) ds ≡ true → ds ≡ []
all_done_none [] h = refl
all_done_none (d ∷ ds) h = ground arith

first-Memᴰ :
    (now : Time) (sub : Submission) (t : Task) (ts : List Task) (refs : List TaskRef)
    → t.dependencies ≡ []
    → AreInitial now sub (t ∷ ts) refs
    → Memᴰ (record { job_id = sub.id; task_id = t.task_id }) refs
first-Memᴰ now sub t ts refs free (AreInitial.waits n i) = absurd (n free)
first-Memᴰ now sub t ts refs free (AreInitial.starts f i) = Memᴰ.head refl

pub plan-IsStarted :
    (now : Time) (sub : Submission) (ts : List Task) (id : String) (e e' : Engine)
    → is_plan ts ≡ true
    → IsCreated now sub (record { dag_id = id; tasks = ts }) e e'
    → IsStarted sub.id e'
unfolding enqueue_many initial_refs job_record task_record
plan-IsStarted now sub [] id e e' h c = ground arith
plan-IsStarted now sub (t ∷ ts) id e e' h c =
    let free : t.dependencies ≡ [] = all_done_none t.dependencies (ground arith) in
    let ref : TaskRef = record { job_id = sub.id; task_id = t.task_id } in
    record {
      job = job_record now sub (t ∷ ts);
      task = task_record now sub t;
      ref = ref;
      job_found = c.job;
      job_running = ground arith;
      task_found = c.tasks t (Memᴰ.head refl);
      task_free = free;
      ref_named = refl;
      in_queue =
          subst (Memᴰ ref) (sym (ap (λ (q : MemoryQueue). q.items) c.queue.1))
            (mem-append_right e.queue.items (first-Memᴰ now sub t ts c.queue.0 free c.queue.2));
    }

-- a job whose plan is in order is started if the policy lets it in
pub add_job-IsStarted :
    (digest : AuditPayload → String) (now : Time) (sub : Submission) (dag : Dag) (e : Engine)
    → is_plan dag.tasks ≡ true
    → admits sub e ≡ true
    → IsStarted sub.id (add_job digest now sub dag e).0
add_job-IsStarted digest now sub dag e o a =
    let e' = (add_job digest now sub dag e).0 in
    elim (add_job-cases digest now sub dag e (ordered-distinct_ids [] dag.tasks (ground arith))) [
      | inl y ↦ plan-IsStarted now sub dag.tasks dag.dag_id e e' o y.2
      | inr n ↦ ground (arith, sym a ∙ n.0)
    ]

-- A job whose plan no provider gave can start as soon as `AddJob` has succeeded for it: the job is
-- running, and a stored task of it that depends on no other is in the queue.
pub add_job-starts :
    (digest : AuditPayload → String) (now : Time) (sub : Submission) (c : Compiler) (mode : String)
    (e : Engine)
    → provided c sub.id sub.req_type sub.input ≡ none
    → admits sub e ≡ true
    → IsStarted sub.id
        (add_job digest now sub (compile_with_mode c sub.id sub.req_type sub.input mode) e).0
add_job-starts digest now sub c mode e p a =
    let dag = compile_with_mode c sub.id sub.req_type sub.input mode in
    elim (compile_with_mode-is_plan c sub.id sub.req_type sub.input mode) [
      | inr q ↦ ground (arith, sym p ∙ q)
      | inl o ↦ add_job-IsStarted digest now sub dag e o a
    ]
