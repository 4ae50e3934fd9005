-- ===== src/Store.antt =====
-- internal/state/memory_store.go. Each operation runs under the mutex and returns no error, so it
-- is a function of the store; `now` is what its clock shows.
pub mod Audit
pub mod Tables
use splai.Base.{
  ℕ, ◌+◌, String, Bool, true, false, ◌&&◌, ◌||◌, not, Option, none, some, List, [], ◌∷◌, ◌++◌, ltb,
  leb, if◌then◌else◌, length, take, drop, keep, reverse, Map, lookup, lookup_or, insert, values,
  str_eq, is_empty,
}
use splai.State.{
  Time, Float, is_zero, Status, queued, assigned, running, completed, failed, canceled, archived,
  other, status_eq, JobRecord, TaskRecord, WorkerRecord, AuditEventRecord, AuditQuery,
}

pub record MemoryStore : Type 0 where
  pub jobs : Map JobRecord
  pub tasks : Map (Map TaskRecord)
  pub workers : Map WorkerRecord
  pub audits : List AuditEventRecord
  pub next_id : ℕ

unfoldable pub new_memory_store : MemoryStore
new_memory_store = record { jobs = []; tasks = []; workers = []; audits = []; next_id = 1 }

-- a record's creation time, stamped if it has none
abbrev pub stamp : Time → Time → Time
stamp now t = if is_zero t then now else t

unfoldable pub add_tasks : Time → List TaskRecord → Map TaskRecord → Map TaskRecord
add_tasks now [] m = m
add_tasks now (t ∷ ts) m =
    add_tasks now ts
      (insert t.task_id (record t { created_at = stamp now t.created_at; updated_at = now }) m)

unfoldable pub create_job_with_tasks :
    Time → JobRecord → List TaskRecord → MemoryStore → MemoryStore
unfolding add_tasks
create_job_with_tasks now job ts s = record s {
  jobs =
      insert job.id (record job { created_at = stamp now job.created_at; updated_at = now }) s.jobs;
  tasks = insert job.id (add_tasks now ts []) s.tasks;
}

unfoldable pub get_job : String → MemoryStore → Option JobRecord
get_job id s = lookup id s.jobs

unfoldable pub update_job : Time → JobRecord → MemoryStore → MemoryStore
update_job now job s = record s { jobs = insert job.id (record job { updated_at = now }) s.jobs }

-- A filter by text or status lets everything pass if it is empty.
abbrev pub passes : String → String → Bool
passes want have = is_empty want || str_eq have want

abbrev pub any_status : Status → Bool
any_status (other s) = is_empty s
any_status _ = false

abbrev pub passes_status : Status → Status → Bool
passes_status want have = any_status want || status_eq have want

unfoldable pub count_jobs_by_tenant_status : String → Status → MemoryStore → ℕ
count_jobs_by_tenant_status tenant status s =
    length (keep (λ j. passes tenant j.tenant && passes_status status j.status) (values s.jobs))

unfoldable pub list_tasks_by_job : String → MemoryStore → List TaskRecord
list_tasks_by_job id s = values (lookup_or [] id s.tasks)

unfoldable pub get_task : String → String → MemoryStore → Option TaskRecord
get_task job_id task_id s = elim (lookup job_id s.tasks) [
  | none ↦ none
  | some by_id ↦ lookup task_id by_id
]

unfoldable pub update_task : Time → TaskRecord → MemoryStore → MemoryStore
update_task now task s =
    let by_id = lookup_or [] task.job_id s.tasks in
    record s {
      tasks =
          insert task.job_id (insert task.task_id (record task { updated_at = now }) by_id) s.tasks;
    }

-- the loop over the jobs' tables of tasks
count_tasks : String → Status → MemoryStore → Map (Map TaskRecord) → ℕ
count_tasks tenant status s [] = 0
count_tasks tenant status s ((id, by_id) ∷ m) =
    elim (lookup id s.jobs) [
      | none ↦ 0
      | some job ↦
          if passes tenant job.tenant
          then length (keep (λ (t : TaskRecord). passes_status status t.status) (values by_id))
          else 0
    ]
    + count_tasks tenant status s m

unfoldable pub count_tasks_by_tenant_status : String → Status → MemoryStore → ℕ
unfolding count_tasks
count_tasks_by_tenant_status tenant status s = count_tasks tenant status s s.tasks

-- the tasks of all jobs, in the order of the two nested ranges
unfoldable pub all_tasks : Map (Map TaskRecord) → List TaskRecord
all_tasks [] = []
all_tasks ((id, by_id) ∷ m) = values by_id ++ all_tasks m

unfoldable pub is_expired_lease : Time → TaskRecord → Bool
is_expired_lease now t =
    (status_eq t.status running || status_eq t.status assigned)
    && not (is_empty t.lease_id)
    && not (is_zero t.lease_expires)
    && ltb t.lease_expires now

unfoldable pub list_expired_leased_tasks : Time → MemoryStore → List TaskRecord
unfolding all_tasks is_expired_lease
list_expired_leased_tasks now s = keep (is_expired_lease now) (all_tasks s.tasks)

unfoldable pub upsert_worker : Time → WorkerRecord → MemoryStore → MemoryStore
upsert_worker now w s = record s {
  workers = insert w.id (record w { last_heartbeat = stamp now w.last_heartbeat }) s.workers;
}

unfoldable pub get_worker : String → MemoryStore → Option WorkerRecord
get_worker id s = lookup id s.workers

unfoldable pub list_workers : MemoryStore → List WorkerRecord
list_workers s = values s.workers

-- the zero value of a worker's record
zero_worker : WorkerRecord
zero_worker = record {
  id = "";
  cpu = 0;
  memory = "";
  gpu = false;
  models = [];
  tools = [];
  backends = [];
  locality = "";
  health = "";
  queue_depth = 0;
  running_tasks = 0;
  cpu_util = 0;
  memory_util = 0;
  last_heartbeat = 0;
}

-- what a heartbeat reports
pub record Load : Type 0 where
  pub queue_depth : ℕ
  pub running_tasks : ℕ
  pub cpu_util : Float
  pub memory_util : Float
  pub health : String

unfoldable pub update_worker_heartbeat : Time → String → Load → MemoryStore → MemoryStore
unfolding zero_worker
update_worker_heartbeat now id l s =
    let w = lookup_or zero_worker id s.workers in
    record s {
      workers =
          insert id
            (record w {
              queue_depth = l.queue_depth;
              running_tasks = l.running_tasks;
              cpu_util = l.cpu_util;
              memory_util = l.memory_util;
              health = if is_empty l.health then "healthy" else l.health;
              last_heartbeat = now;
            })
            s.workers;
    }

extend_leases : String → Time → ℕ → Map TaskRecord → Map TaskRecord
extend_leases worker now duration [] = []
extend_leases worker now duration ((id, t) ∷ m) =
    let rest = extend_leases worker now duration m in
    if status_eq t.status running && str_eq t.worker_id worker && not (is_empty t.lease_id)
    then (id, record t { lease_expires = now + duration; updated_at = now }) ∷ rest
    else (id, t) ∷ rest

extend_all : String → Time → ℕ → Map (Map TaskRecord) → Map (Map TaskRecord)
unfolding extend_leases
extend_all worker now duration [] = []
extend_all worker now duration ((id, by_id) ∷ m) =
    (id, extend_leases worker now duration by_id) ∷ extend_all worker now duration m

extend_worker_leases : String → Time → ℕ → MemoryStore → MemoryStore
unfolding extend_all
extend_worker_leases worker now duration s = record s {
  tasks = extend_all worker now duration s.tasks;
}

unfoldable pub of_worker : String → Status → TaskRecord → Bool
of_worker worker status t = passes worker t.worker_id && passes_status status t.status

unfoldable pub list_tasks_by_worker_status : String → Status → MemoryStore → List TaskRecord
unfolding all_tasks of_worker
list_tasks_by_worker_status worker status s = keep (of_worker worker status) (all_tasks s.tasks)

count_tasks_by_worker_status : String → Status → MemoryStore → ℕ
unfolding list_tasks_by_worker_status
count_tasks_by_worker_status worker status s = length (list_tasks_by_worker_status worker status s)

-- The fields that the hash of an event covers: all but its number and the hash itself.
pub record AuditPayload : Type 0 where
  pub action : String
  pub actor : String
  pub tenant : String
  pub remote_addr : String
  pub resource : String
  pub payload_hash : String
  pub prev_hash : String
  pub requested : ℕ
  pub result : String
  pub details : String
  pub created_at : Time

unfoldable pub audit_payload : AuditEventRecord → AuditPayload
audit_payload e = record {
  action = e.action;
  actor = e.actor;
  tenant = e.tenant;
  remote_addr = e.remote_addr;
  resource = e.resource;
  payload_hash = e.payload_hash;
  prev_hash = e.prev_hash;
  requested = e.requested;
  result = e.result;
  details = e.details;
  created_at = e.created_at;
}

abbrev pub last_event : List AuditEventRecord → Option AuditEventRecord
last_event [] = none
last_event (e ∷ []) = some e
last_event (e ∷ f ∷ es) = last_event (f ∷ es)

-- `digest` is the hexadecimal SHA-256 of the payload's JSON.
unfoldable pub append_audit_event :
    (AuditPayload → String) → Time → AuditEventRecord → MemoryStore → MemoryStore
unfolding audit_payload
append_audit_event digest now event s =
    let stamped = record event { created_at = stamp now event.created_at } in
    let linked : AuditEventRecord = elim (last_event s.audits) [
      | none ↦ stamped
      | some e ↦ record stamped { prev_hash = e.event_hash }
    ] in
    record s {
      audits =
          s.audits
          ++ record linked { id = s.next_id; event_hash = digest (audit_payload linked) } ∷ [];
      next_id = s.next_id + 1;
    }

unfoldable pub audit_passes : AuditQuery → AuditEventRecord → Bool
audit_passes q a =
    passes q.action a.action
    && passes q.actor a.actor
    && passes q.tenant a.tenant
    && passes q.result a.result
    && (is_zero q.from || leb q.from a.created_at)
    && (is_zero q.to || leb a.created_at q.to)

unfoldable pub list_audit_events : AuditQuery → MemoryStore → List AuditEventRecord
unfolding audit_passes
list_audit_events q s =
    let limit = if leb q.limit 0 then 50 else q.limit in
    let filtered = keep (audit_passes q) s.audits in
    let offset = if ltb (length filtered) q.offset then length filtered else q.offset in
    reverse (take limit (drop offset filtered))
