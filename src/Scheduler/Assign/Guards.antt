-- ===== src/Scheduler/Assign/Guards.antt =====
-- When `tryAssign` of internal/scheduler/engine.go gives an assignment.
use splai.Base.{◌+◌, ◌≤◌, String, ◌≡◌, true, some, ◌⊎◌}
use splai.State.{Time, queued, running, JobRecord, TaskRecord, TaskRef}
use splai.Store.{MemoryStore, get_job, get_task}
use splai.Scheduler.Engine.{Engine, dependencies_completed}
use splai.Scheduler.Placement.{Scores, best_worker_for_task}
use splai.Scheduler.Assign.{Assignment, assigned_task}
use splai.Scheduler.Assign.Given.{IsLeased}

-- why the task could be given
pub record MayBeGiven (now : Time) (scores : Scores) (worker_id : String) (ref : TaskRef)
    (job : JobRecord) (t : TaskRecord) (s : MemoryStore) : Type 0 where
  pub job_running : job.status ≡ running
  pub task_queued : t.status ≡ queued
  pub delay_over : t.lease_expires ≤ now
  pub ready : dependencies_completed ref.job_id t.dependencies s ≡ true
  pub best :
      (best_worker_for_task scores job t s ≡ "") ⊎ (best_worker_for_task scores job t s ≡ worker_id)

-- what an assignment rests on in the engine `e`, and what it leaves in `e'`
pub record IsGiven (scores : Scores) (now : Time) (worker_id : String) (ref : TaskRef)
    (e e' : Engine) (a : Assignment) : Type 0 where
  pub job : JobRecord
  pub task : TaskRecord
  pub job_found : get_job ref.job_id e.store ≡ some job
  pub task_found : get_task ref.job_id ref.task_id e.store ≡ some task
  pub allowed : MayBeGiven now scores worker_id ref job task e.store
  pub leased : IsLeased e.lease_duration now worker_id ref task e' a
  pub bounded :
      (assigned_task e.lease_duration now worker_id task).lease_expires ≤ now + e.lease_duration
