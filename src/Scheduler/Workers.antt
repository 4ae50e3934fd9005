-- ===== src/Scheduler/Workers.antt =====
-- The registration of workers in internal/scheduler/engine.go, and what the engine shows of its
-- state: `GetJob`, `GetJobTasks`, `ListWorkers`, and the calls that it passes on to its queue.
pub mod Backends
use Prim.Native.Nat.{Ordering}
use Prim.Native.String.{compare}
use splai.Base.{
  ℕ, String, Bool, true, false, ◌||◌, Option, none, some, List, [], ◌∷◌, if◌then◌else◌, is_empty,
  member, map,
}
use splai.State.{
  Time, Status, JobRecord, TaskRecord, TaskRef, WorkerRecord, AuditEventRecord, AuditQuery,
}
use splai.Queue.{list_dead_letters, requeue_dead_letters}
use splai.Store.{
  AuditPayload, get_job, list_tasks_by_job, list_workers, upsert_worker, append_audit_event,
  list_audit_events,
}
use splai.Scheduler.Engine.{Engine}
use splai.Scheduler.Placement.{normalize_backend, sort_texts}

pub record RegisterWorkerRequest : Type 0 where
  pub worker_id : String
  pub cpu : ℕ
  pub memory : String
  pub gpu : Bool
  pub models : List String
  pub tools : List String
  pub backends : List String
  pub locality : String

-- the loop over the names, of which `seen` are taken
unfoldable pub distinct_backends : List String → List String → List String
distinct_backends [] seen = []
distinct_backends (b ∷ bs) seen =
    let nb = normalize_backend b in
    let skip = is_empty nb || member nb seen in
    let rest = distinct_backends bs (if skip then seen else nb ∷ seen) in
    if skip then rest else nb ∷ rest

unfoldable pub normalize_backends : List String → List String
unfolding distinct_backends
normalize_backends names = sort_texts (distinct_backends names [])

-- the record's `float64` zero has no bit set
unfoldable pub register_worker : Time → RegisterWorkerRequest → Engine → Engine
unfolding normalize_backends
register_worker now req e = record e {
  store =
      upsert_worker now
        (record {
          id = req.worker_id;
          cpu = req.cpu;
          memory = req.memory;
          gpu = req.gpu;
          models = req.models;
          tools = req.tools;
          backends = normalize_backends req.backends;
          locality = req.locality;
          health = "healthy";
          queue_depth = 0;
          running_tasks = 0;
          cpu_util = 0;
          memory_util = 0;
          last_heartbeat = now;
        })
        e.store;
}

pub record TaskStatus : Type 0 where
  pub task_id : String
  pub type : String
  pub status : Status
  pub attempt : ℕ
  pub worker_id : String
  pub lease_id : String
  pub lease_expires : Time
  pub output_uri : String
  pub error : String
  pub created_at : Time
  pub updated_at : Time

unfoldable pub task_status : TaskRecord → TaskStatus
task_status t = record {
  task_id = t.task_id;
  type = t.type;
  status = t.status;
  attempt = t.attempt;
  worker_id = t.worker_id;
  lease_id = t.lease_id;
  lease_expires = t.lease_expires;
  output_uri = t.output_uri;
  error = t.error;
  created_at = t.created_at;
  updated_at = t.updated_at;
}

unfoldable pub insert_status : TaskStatus → List TaskStatus → List TaskStatus
insert_status t [] = t ∷ []
insert_status t (u ∷ us) = elim (compare u.task_id t.task_id) [
  | Ordering.lt ↦ u ∷ insert_status t us
  | _ ↦ t ∷ u ∷ us
]

unfoldable pub sort_statuses : List TaskStatus → List TaskStatus
unfolding insert_status
sort_statuses [] = []
sort_statuses (t ∷ ts) = insert_status t (sort_statuses ts)

-- the engine's `Job` has the same fields as the store's record
unfoldable pub get_job_view : String → Engine → Option JobRecord
get_job_view id e = get_job id e.store

unfoldable pub get_job_tasks : String → Engine → Option (List TaskStatus)
unfolding sort_statuses task_status
get_job_tasks id e = elim (get_job id e.store) [
  | none ↦ none
  | some job ↦ some (sort_statuses (map task_status (list_tasks_by_job id e.store)))
]

unfoldable pub list_all_workers : Engine → List WorkerRecord
list_all_workers e = list_workers e.store

unfoldable pub list_dead : ℕ → Engine → List TaskRef
list_dead limit e = list_dead_letters limit e.queue

unfoldable pub requeue_dead_refs : List TaskRef → Engine → Engine × ℕ
requeue_dead_refs refs e =
    let (q, n) = requeue_dead_letters refs e.queue in (record e { queue = q }, n)

unfoldable pub append_event : (AuditPayload → String) → Time → AuditEventRecord → Engine → Engine
append_event digest now event e = record e { store = append_audit_event digest now event e.store }

unfoldable pub list_events : AuditQuery → Engine → List AuditEventRecord
list_events query e = list_audit_events query e.store
