-- ===== src/Scheduler/Lifecycle.antt =====
-- `CancelJob` and `ArchiveJob` of internal/scheduler/engine.go.
pub mod Cancel
use splai.Base.{
  ℕ, String, ◌⧺◌, Bool, true, false, ◌&&◌, ◌||◌, Option, none, some, List, [], ◌∷◌, if◌then◌else◌,
  Result, ok, err,
}
use splai.State.{
  Time, Status, queued, assigned, running, completed, failed, canceled, archived, other, status_eq,
  JobRecord, TaskRecord,
}
use splai.Store.{MemoryStore, get_job, update_job, update_task, list_tasks_by_job}
use splai.Scheduler.Engine.{Engine, is_terminal}

-- the tasks that `CancelJob` touches
abbrev pub is_cancelable : Status → Bool
is_cancelable s = status_eq s queued || status_eq s running

abbrev pub canceled_task : TaskRecord → TaskRecord
canceled_task t = record t { status = canceled; worker_id = ""; lease_id = ""; lease_expires = 0 }

unfoldable pub cancel_tasks : Time → List TaskRecord → MemoryStore → MemoryStore
cancel_tasks now [] s = s
cancel_tasks now (t ∷ ts) s =
    cancel_tasks now ts (if is_cancelable t.status then update_task now (canceled_task t) s else s)

unfoldable pub cancel_job : Time → String → Engine → Engine × Bool
unfolding cancel_tasks
cancel_job now id e = elim (get_job id e.store) [
  | none ↦ (e, false)
  | some job ↦
      if is_terminal job.status
      then (e, true)
      else let s =
          update_job now
            (record job { status = canceled; message = "canceled by user"; updated_at = now })
            e.store in
        (record e { store = cancel_tasks now (list_tasks_by_job id s) s }, true)
]

unfoldable pub archive_job : Time → String → Engine → Engine × Result Bool
archive_job now id e = elim (get_job id e.store) [
  | none ↦ (e, ok false)
  | some job ↦
      if is_terminal job.status
      then (
        record e {
          store = update_job now (record job { status = archived; updated_at = now }) e.store;
        },
        ok true,
      )
      else (e, err ("job " ⧺ (id ⧺ " is not in terminal state")))
]
