-- ===== src/Scheduler/Leases.antt =====
-- Leases in internal/scheduler/engine.go: their names, deadlines and renewal.
pub mod Deadlines
use splai.Base.{
  ℕ, ◌+◌, ◌-◌, ◌*◌, ◌<◌, ◌≤◌, ◌^◌, min, String, ◌⧺◌, ◌≡◌, refl, sym, ◌∙◌, ap, Bool, true, false,
  ◌&&◌, ◌||◌, not, Option, none, some, List, [], ◌∷◌, ◌++◌, arith, ltb, leb, ◌==◌, if◌then◌else◌,
  length, is_empty, split, last, itoa, parse_positive, Result, ok, err,
}
use splai.State.{Time, second, unix_epoch, is_zero, Status, running, assigned, TaskRecord}
use splai.Store.{
  MemoryStore, update_task, list_tasks_by_worker_status, get_worker, update_worker_heartbeat, Load,
}
use splai.Scheduler.Engine.{Engine}

-- fmt.Sprintf("%s:%s:%d:%d", workerID, taskID, attempt, now.UnixNano()), for a clock past 1970
unfoldable pub new_lease_id : String → String → ℕ → Time → String
new_lease_id worker task attempt now =
    (worker ⧺ (":" ⧺ (task ⧺ (":" ⧺ itoa attempt)))) ⧺ (":" ⧺ itoa (now - unix_epoch))

unfoldable pub lease_start_from_id : String → Option Time
lease_start_from_id id =
    let parts = split ":" id in
    if ltb (length parts) 4
    then none
    else elim (parse_positive (last parts)) [ none ↦ none | some nanos ↦ some (unix_epoch + nanos) ]

-- when the current attempt times out, if the task has a timeout
unfoldable pub task_attempt_deadline : TaskRecord → Time → Option Time
task_attempt_deadline t fallback =
    if t.timeout_sec == 0 then none else elim (lease_start_from_id t.lease_id) [
      | none ↦ some (fallback + t.timeout_sec * second)
      | some start ↦ some (start + t.timeout_sec * second)
    ]

-- a lease of the usual length, cut at the deadline of the attempt
unfoldable pub lease_end : ℕ → TaskRecord → Time → Time
lease_end duration t now = elim (task_attempt_deadline t now) [
  | none ↦ now + duration
  | some deadline ↦ if ltb deadline (now + duration) then deadline else now + duration
]

-- the loop of `extendWorkerLeasesWithTimeout`
unfoldable pub extend_leases : ℕ → Time → List TaskRecord → MemoryStore → MemoryStore
extend_leases duration now [] s = s
extend_leases duration now (t ∷ ts) s =
    let skip = is_empty t.lease_id || (not (is_zero t.lease_expires) && leb t.lease_expires now) in
    extend_leases duration now ts (
      if skip then s else update_task now (record t { lease_expires = lease_end duration t now }) s)

extend_worker_leases_with_timeout : String → Time → Engine → Engine
unfolding extend_leases
extend_worker_leases_with_timeout worker now e =
    let tasks =
      list_tasks_by_worker_status worker running e.store
      ++ list_tasks_by_worker_status worker assigned e.store in
    record e { store = extend_leases e.lease_duration now tasks e.store }

pub heartbeat : Time → String → Load → Engine → Engine × Result (Unit {0})
unfolding extend_worker_leases_with_timeout
heartbeat now worker load e = elim (get_worker worker e.store) [
  | none ↦ (e, err "worker not registered")
  | some w ↦ (
    extend_worker_leases_with_timeout worker now
        (record e { store = update_worker_heartbeat now worker load e.store }),
    ok tt,
  )
]
