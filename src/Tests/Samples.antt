-- ===== src/Tests/Samples.antt =====
-- Test data: the queue, the store and the engine that the tests run on.
use splai.Base.{◌+◌, ◌*◌, String, true, [], ◌∷◌}
use splai.State.{
  Time, second, unix_epoch, queued, running, completed, failed, JobRecord, TaskRecord, TaskRef,
  AuditEventRecord, AuditQuery,
}
use splai.Queue.{MemoryQueue}
use splai.Store.{MemoryStore, AuditPayload}
use splai.Policy.{Engine as PolicyEngine}
use splai.Scheduler.Engine.{Engine}
use splai.Scheduler.Report.{ReportTaskResultRequest}

abbrev pub first_ref : TaskRef
first_ref = record { job_id = "job-1"; task_id = "t1" }

abbrev pub second_ref : TaskRef
second_ref = record { job_id = "job-1"; task_id = "t2" }

abbrev pub two_items : MemoryQueue
two_items = record {
  items = first_ref ∷ second_ref ∷ [];
  inflight = [];
  nack = [];
  dead = [];
  counter = 0;
}

abbrev pub one_item : MemoryQueue
one_item = record two_items { items = first_ref ∷ [] }

abbrev pub dead_item : MemoryQueue
dead_item = record two_items { items = []; dead = first_ref ∷ second_ref ∷ [] }

abbrev pub start : Time
start = unix_epoch + 1_000_000_000 * second

abbrev pub job : JobRecord
job = record {
  id = "job-1";
  tenant = "default";
  type = "chat";
  input = "hello";
  policy = "";
  priority = "batch";
  status = running;
  message = "";
  result_artifact_uri = "";
  created_at = start;
  updated_at = start;
}

abbrev pub first_task : TaskRecord
first_task = record {
  job_id = "job-1";
  task_id = "t1";
  type = "llm_inference";
  inputs = ("_priority", "batch") ∷ [];
  dependencies = [];
  status = running;
  worker_id = "w1";
  lease_id = "w1:t1:1:1000000000000000000";
  lease_expires = start + 15 * second;
  attempt = 1;
  max_retries = 2;
  timeout_sec = 60;
  output_uri = "";
  error = "";
  last_report_key = "";
  created_at = start;
  updated_at = start;
}

abbrev pub second_task : TaskRecord
second_task = record first_task {
  task_id = "t2";
  dependencies = "t1" ∷ [];
  status = queued;
  worker_id = "";
  lease_id = "";
  lease_expires = 0;
  attempt = 0;
}

abbrev pub store : MemoryStore
store = record {
  jobs = ("job-1", job) ∷ [];
  tasks = ("job-1", ("t1", first_task) ∷ ("t2", second_task) ∷ []) ∷ [];
  workers = [];
  audits = [];
  next_id = 1;
}

abbrev pub allow_all : PolicyEngine
allow_all = record { default_action = "allow"; rules = []; quotas = []; noop = true }

abbrev pub engine : Engine
engine = record {
  store = store;
  queue = record two_items { items = [] };
  lease_duration = 15 * second;
  policy = allow_all;
  preempt = true;
}

abbrev pub success : ReportTaskResultRequest
success = record {
  worker_id = "w1";
  job_id = "job-1";
  task_id = "t1";
  lease_id = "w1:t1:1:1000000000000000000";
  idempotency_key = "job-1:t1:1";
  status = completed;
  output_artifact_uri = "artifact://job-1/t1";
  error = "";
}

abbrev pub late_failure : ReportTaskResultRequest
late_failure = record success { lease_id = ""; idempotency_key = "late"; status = failed }

abbrev pub finished_task : TaskRecord
finished_task = record first_task {
  status = completed;
  lease_id = "";
  lease_expires = 0;
  last_report_key = "job-1:t1:1";
}

abbrev pub finished : Engine
finished = record engine {
  store = record store { tasks = ("job-1", ("t1", finished_task) ∷ ("t2", second_task) ∷ []) ∷ [] };
}

abbrev pub event : AuditEventRecord
event = record {
  id = 0;
  action = "task_preempted";
  actor = "system/scheduler";
  tenant = "";
  remote_addr = "";
  resource = "tasks";
  payload_hash = "";
  prev_hash = "";
  event_hash = "";
  requested = 1;
  result = "ok";
  details = "";
  created_at = start;
}

-- stands for the hexadecimal SHA-256 of the payload
abbrev pub digest : AuditPayload → String
digest p = p.details

abbrev pub every_event : AuditQuery
every_event = record {
  limit = 1;
  offset = 0;
  action = "";
  actor = "";
  tenant = "";
  result = "";
  from = 0;
  to = 0;
}

abbrev pub logged : MemoryStore
logged = record store { audits = record event { id = 1 } ∷ []; next_id = 2 }
