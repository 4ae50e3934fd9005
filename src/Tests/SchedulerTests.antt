-- ===== src/Tests/SchedulerTests.antt =====
-- internal/scheduler/engine.go on a job of two tasks.
use mathlib.Core.List.{Memᴰ}
use splai.Base.{
  String, ◌+◌, ◌*◌, ◌<◌, ◌≡◌, ◌≢◌, ◌↔◌, ◌⊎◌, refl, true, false, some, List, [], ◌∷◌, arith, lookup,
  insert, is_empty, count, length, split, parse_positive, trim_space, equal_fold,
}
use splai.State.{Time, second, queued, running, failed, canceled, TaskRecord, JobRecord}
use splai.Store.{
  get_job, get_task, update_task, update_job, list_tasks_by_job, is_expired_lease,
  list_expired_leased_tasks,
}
use splai.Store.Tables.{IsKeyed}
use splai.Scheduler.Engine.{ref_of, dependencies_completed}
use splai.Scheduler.Leases.{new_lease_id, lease_start_from_id}
use splai.Scheduler.Leases.Deadlines.{lease_start_from_id-new_lease_id}
use splai.Scheduler.Progress.{
  outcome, has_failed, has_completed, goes_on, requeue_expired_leases, expire_task, timed_out,
}
use splai.Scheduler.Progress.Outcomes.{outcome_iff, AllDone, is_failed, is_done}
use splai.Scheduler.Progress.Expiry.{requeue_expired_leases-cures, requeue_expired_leases-requeues}
use splai.Scheduler.Report.{report_task_result, guard, accepted}
use splai.Scheduler.Report.Guards.{IsAccepted, report_task_result-guarded}
use splai.Scheduler.Report.Replay.{IsFound, report_reopens}
use splai.Scheduler.Report.Wakeups.{report-wakes, report-settles, status_of}
use splai.Scheduler.Lifecycle.{cancel_job}
use splai.Scheduler.Lifecycle.Cancel.{cancel_job-stops}
use splai.Tests.Samples.{
  job, first_task, second_task, store, engine, success, late_failure, finished, finished_task,
  start,
}

abbrev later : Time
later = start + 10 * second

lease_start_from_id-new_lease_id_example :
    lease_start_from_id (new_lease_id "w:1" "t1" 1 start) ≡ some start
lease_start_from_id-new_lease_id_example =
    lease_start_from_id-new_lease_id "w:1" "t1" 1 start (omega arith) (omega arith)

abbrev tasks : List TaskRecord
tasks = finished_task ∷ second_task ∷ []

outcome_iff_example :
    ((outcome tasks ≡ has_failed) ↔ (0 < count is_failed tasks))
    × ((outcome tasks ≡ has_completed) ↔ ((tasks ≢ []) × AllDone tasks))
    × ((outcome tasks ≡ goes_on)
        ↔ ((count is_failed tasks ≡ 0) × ((tasks ≡ []) ⊎ (count is_done tasks < length tasks))))
outcome_iff_example = outcome_iff tasks

store-IsKeyed : IsKeyed store
store-IsKeyed = record { jobs = (refl, tt); tasks = (((refl, refl), ((refl, refl), tt)), tt) }

finished-IsKeyed : IsKeyed finished.store
finished-IsKeyed = record { jobs = (refl, tt); tasks = (((refl, refl), ((refl, refl), tt)), tt) }

-- half a minute later the lease of `t1` has expired
abbrev expiry : Time
expiry = start + 30 * second

requeue_expired_leases-requeues_example :
    (timed_out expiry first_task ≡ true)
      × (2 < 1)
      × ((expire_task expiry first_task).status ≡ failed)
    ⊎ Memᴰ (ref_of first_task) (requeue_expired_leases expiry engine).queue.items
unfolding get_task lookup is_expired_lease is_empty
requeue_expired_leases-requeues_example =
    requeue_expired_leases-requeues expiry engine "job-1" "t1" first_task refl refl

success-IsFound : IsFound success engine job first_task
unfolding get_job get_task lookup
success-IsFound = (refl, refl)

success_accepted : guard success first_task job ≡ accepted
unfolding guard is_empty
success_accepted = refl

report_task_result-guarded_example :
    IsAccepted success engine ⊎ ((report_task_result later success engine).0 ≡ engine)
report_task_result-guarded_example = report_task_result-guarded later success engine

report_reopens_example :
    ((t : TaskRecord) × (get_task "job-1" "t1"
          (report_task_result expiry late_failure finished).0.store
        ≡ some t)
      × (t.status ≡ queued))
    × ((report_task_result expiry late_failure finished).0.queue.items ≡ ref_of finished_task ∷ [])
unfolding get_job get_task lookup guard is_empty
report_reopens_example =
    report_reopens expiry late_failure finished job finished_task finished-IsKeyed (refl, refl) refl
      refl refl refl (omega arith)

report-settles_example :
    (j : JobRecord) × (get_job "job-1" (report_task_result later success engine).0.store ≡ some j)
    × (j.status
        ≡ status_of
            (outcome (list_tasks_by_job "job-1" (report_task_result later success engine).0.store)))
report-settles_example =
    report-settles later success engine job first_task store-IsKeyed success-IsFound
      success_accepted refl

cancel_job-stops_example :
    ((cancel_job later "job-1" engine).1 ≡ true)
    × ((j : JobRecord) × (get_job "job-1" (cancel_job later "job-1" engine).0.store ≡ some j)
        × (j.status ≡ canceled))
    × ((k : String) (t : TaskRecord)
        → get_task "job-1" k (cancel_job later "job-1" engine).0.store ≡ some t
        → (t.status ≢ queued) × (t.status ≢ running))
unfolding get_job lookup
cancel_job-stops_example = cancel_job-stops later "job-1" engine job store-IsKeyed refl refl

requeue_expired_leases-cures_example :
    is_expired_lease expiry (record (expire_task expiry first_task) { updated_at = expiry }) ≡ false
unfolding requeue_expired_leases get_task update_task lookup insert is_empty get_job update_job
    expire_task list_expired_leased_tasks lease_start_from_id split parse_positive
requeue_expired_leases-cures_example =
    requeue_expired_leases-cures expiry engine "job-1" "t1"
      (record (expire_task expiry first_task) { updated_at = expiry }) store-IsKeyed refl

report-wakes_example :
    Memᴰ (ref_of second_task) (report_task_result later success engine).0.queue.items
unfolding report_task_result get_job get_task update_task update_job lookup insert is_empty
    list_tasks_by_job dependencies_completed trim_space equal_fold
report-wakes_example =
    report-wakes later success engine job first_task second_task success-IsFound success_accepted
      refl (Memᴰ.tail (Memᴰ.head refl)) (refl, refl)
