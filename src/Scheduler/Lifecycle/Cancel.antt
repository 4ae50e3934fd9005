-- ===== src/Scheduler/Lifecycle/Cancel.antt =====
-- What a canceled job leaves behind (internal/scheduler/engine.go).
use mathlib.Core.List.{Memᴰ}
use splai.Base.{
  String, ◌≡◌, ◌≢◌, inl, inr, refl, sym, ◌∙◌, ap, subst, Bool, true, false, some, List, [], ◌∷◌,
  arith, eq_iff, Bool-cases,
}
use splai.State.{Time, queued, running, canceled, JobRecord, TaskRecord}
use splai.Store.{MemoryStore, get_job, update_job, get_task, update_task, list_tasks_by_job}
use splai.Store.Tables.{
  IsKeyed, get_job-update_job, get_job-update_task, update_job-IsKeyed, get_job-named,
}
use splai.Scheduler.Engine.{Engine, is_terminal}
use splai.Scheduler.Lifecycle.{is_cancelable, canceled_task, cancel_tasks, cancel_job}
use splai.Scheduler.Sweep.{sweep, sweep-cures, mem-list_tasks_by_job}

abbrev can_cancel : TaskRecord → Bool
can_cancel t = is_cancelable t.status

cancel_tasks-sweep :
    (now : Time) (ts : List TaskRecord) (s : MemoryStore)
    → cancel_tasks now ts s ≡ sweep can_cancel canceled_task now ts s
unfolding cancel_tasks sweep
cancel_tasks-sweep now [] s = refl
cancel_tasks-sweep now (t ∷ ts) s = cancel_tasks-sweep now ts _

get_job-cancel_tasks :
    (now : Time) (ts : List TaskRecord) (s : MemoryStore) (id : String)
    → get_job id (cancel_tasks now ts s) ≡ get_job id s
unfolding cancel_tasks
get_job-cancel_tasks now [] s id = refl
get_job-cancel_tasks now (t ∷ ts) s id = elim (Bool-cases (can_cancel t)) [
  | inl b ↦ rw b (
      get_job-cancel_tasks now ts (update_task now (canceled_task t) s) id
      ∙ get_job-update_task now s (canceled_task t) id)
  | inr b ↦ rw b (get_job-cancel_tasks now ts s id)
]

abbrev canceled_job : Time → JobRecord → JobRecord
canceled_job now job = record job {
  status = canceled;
  message = "canceled by user";
  updated_at = now;
}

cancel_job-open :
    (now : Time) (id : String) (e : Engine) (job : JobRecord)
    → get_job id e.store ≡ some job
    → is_terminal job.status ≡ false
    → let s = update_job now (canceled_job now job) e.store in
      cancel_job now id e ≡ (record e { store = cancel_tasks now (list_tasks_by_job id s) s }, true)
unfolding cancel_job
cancel_job-open now id e job p open_ = rw (p, cancel_job) (rw open_ refl)

-- Canceling a job that is not in a terminal state succeeds, and afterwards the job is canceled
-- and none of its tasks is queued or running any more.
pub cancel_job-stops :
    (now : Time) (id : String) (e : Engine) (job : JobRecord)
    → IsKeyed e.store
    → get_job id e.store ≡ some job
    → is_terminal job.status ≡ false
    → let (e', found) = cancel_job now id e in
      (found ≡ true)
      × ((j : JobRecord) × (get_job id e'.store ≡ some j) × (j.status ≡ canceled))
      × ((k : String) (t : TaskRecord)
          → get_task id k e'.store ≡ some t
          → (t.status ≢ queued) × (t.status ≢ running))
cancel_job-stops now id e job key p open_ =
    let s = update_job now (canceled_job now job) e.store in
    let ts = list_tasks_by_job id s in
    rw (cancel_job-open now id e job p open_) (
      refl,
      (
        canceled_job now job,
        get_job-cancel_tasks now ts s id
            ∙ get_job-update_job now e.store (canceled_job now job) id
            ∙ ground (arith, eq_iff job.id id, get_job-named id e.store job key p),
        refl,
      ),
      (λ k t h.
          stopped s ts k t (update_job-IsKeyed now (canceled_job now job) e.store key) refl h),
    )
  where
    stopped :
        (s : MemoryStore) (ts : List TaskRecord) (k : String) (t : TaskRecord)
        → IsKeyed s
        → ts ≡ list_tasks_by_job id s
        → get_task id k (cancel_tasks now ts s) ≡ some t
        → (t.status ≢ queued) × (t.status ≢ running)
    stopped s ts k t ks q h =
        let cured =
          sweep-cures (λ j. j ≡ id) can_cancel canceled_task now (λ t. (refl, refl)) (λ t. refl) ts
            s ks
            (λ j i u here g b.
              subst (Memᴰ u) (ap (λ j. list_tasks_by_job j s) here ∙ sym q)
                (mem-list_tasks_by_job j i s u g))
            id k t refl (rw (cancel_tasks-sweep now ts s) at h) in
        ((λ x. ground arith), (λ x. ground arith))
