-- ===== src/Scheduler/Preemption.antt =====
-- The capacity of a worker and the preemption in internal/scheduler/engine.go: a full worker gives up a
-- task of lower priority.
use splai.Base.{
  ℕ, ◌/◌, String, ◌⧺◌, Bool, true, false, Option, none, some, List, [], ◌∷◌, ◌++◌, ltb, leb, ◌==◌,
  if◌then◌else◌,
}
use splai.State.{Time, queued, assigned, running, TaskRecord, WorkerRecord}
use splai.Queue.{enqueue}
use splai.Store.{AuditPayload, update_task, list_tasks_by_worker_status, append_audit_event}
use splai.Scheduler.Engine.{Engine, input, priority_rank, ref_of}

abbrev at_least : ℕ → ℕ → ℕ
at_least low n = if ltb n low then low else n

unfoldable pub worker_capacity : WorkerRecord → ℕ
worker_capacity w =
    if w.cpu == 0
    then 1
    else let c = at_least 1 (w.cpu / 4) in
      let c' = if w.gpu then at_least 2 c else c in if ltb 16 c' then 16 else c'

-- `cap` is positive, so the test `cap <= 0` never holds
unfoldable pub worker_at_capacity : WorkerRecord → Bool
unfolding worker_capacity
worker_at_capacity w =
    if worker_capacity w == 0 then false else leb (worker_capacity w) w.running_tasks

insert_by_age : TaskRecord → List TaskRecord → List TaskRecord
insert_by_age t [] = t ∷ []
insert_by_age t (u ∷ us) =
    let rest = insert_by_age t us in if ltb u.updated_at t.updated_at then u ∷ rest else t ∷ u ∷ us

-- sort.Slice by `UpdatedAt`; tasks of the same age, whose order it leaves open, keep theirs
sort_by_age : List TaskRecord → List TaskRecord
unfolding insert_by_age
sort_by_age [] = []
sort_by_age (t ∷ ts) = insert_by_age t (sort_by_age ts)

unfoldable pub find_lower : ℕ → List TaskRecord → Option TaskRecord
find_lower rank [] = none
find_lower rank (t ∷ ts) =
    let rest = find_lower rank ts in
    if leb rank (priority_rank (input "_priority" t)) then rest else some t

unfoldable pub preempted_task : Time → TaskRecord → TaskRecord
preempted_task now t = record t {
  status = queued;
  worker_id = "";
  lease_id = "";
  lease_expires = 0;
  error = "preempted for higher-priority task";
  updated_at = now;
}

-- one task loses its worker, and goes back to the queue
unfoldable pub preempt_task :
    (AuditPayload → String) → Time → WorkerRecord → TaskRecord → Engine → Engine
unfolding preempted_task
preempt_task digest now worker t e = record e {
  store =
      append_audit_event digest now
        (record {
          id = 0;
          action = "task_preempted";
          actor = "system/scheduler";
          tenant = "";
          remote_addr = "";
          resource = "tasks";
          payload_hash = "";
          prev_hash = "";
          event_hash = "";
          requested = 1;
          result = "ok";
          details =
              "preempted_job="
              ⧺ (t.job_id ⧺ (" preempted_task=" ⧺ (t.task_id ⧺ (" worker=" ⧺ worker.id))));
          created_at = now;
        })
        (update_task now (preempted_task now t) e.store);
  queue = enqueue (ref_of t) e.queue;
}

unfoldable pub try_preempt_lower_priority :
    (AuditPayload → String) → Time → WorkerRecord → TaskRecord → Engine → Engine × Bool
unfolding sort_by_age find_lower preempt_task
try_preempt_lower_priority digest now worker incoming e =
    let rank = priority_rank (input "_priority" incoming) in
    let held =
      list_tasks_by_worker_status worker.id running e.store
      ++ list_tasks_by_worker_status worker.id assigned e.store in
    if rank == 0 then (e, false) else elim (find_lower rank (sort_by_age held)) [
      | none ↦ (e, false)
      | some t ↦ (preempt_task digest now worker t e, true)
    ]
