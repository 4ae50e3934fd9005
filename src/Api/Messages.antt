-- ===== src/Api/Messages.antt =====
-- The messages of pkg/splaiapi/types.go that no other module declares, and the answers of a
-- handler. Where a message gives an instant as a text in http.TimeFormat, it holds the instant.
use splai.Base.{ℕ, String, Bool, List, Option}
use splai.State.{Status, Time}
use splai.Scheduler.Assign.{Assignment}

pub record SubmitJobRequest : Type 0 where
  pub type : String
  pub input : String
  pub policy : String
  pub priority : String
  pub planner_mode : String
  pub job_spread : Bool
  pub install_model_if_missing : Bool
  pub tenant : String
  pub model : String
  pub latency_class : String
  pub reasoning_required : Bool
  pub data_classification : String
  pub network_isolation : String

pub record SubmitJobResponse : Type 0 where
  pub job_id : String

pub record PrefetchModelRequest : Type 0 where
  pub model : String
  pub source : String
  pub workers : List String
  pub only_missing : Option Bool
  pub priority : String
  pub tenant : String

pub record PrefetchModelResponse : Type 0 where
  pub job_id : String
  pub model : String
  pub source : String
  pub targeted_workers : List String
  pub scheduled_tasks : ℕ
  pub only_missing : Bool

pub record JobStatusResponse : Type 0 where
  pub job_id : String
  pub status : Status
  pub message : String
  pub result_artifact_uri : String
  pub created_at : Time
  pub updated_at : Time

pub record JobTaskStatus : Type 0 where
  pub task_id : String
  pub type : String
  pub status : Status
  pub attempt : ℕ
  pub worker_id : String
  pub lease_id : String
  pub lease_expires : Option Time
  pub output_uri : String
  pub error : String
  pub created_at : Time
  pub updated_at : Time

pub record JobTasksResponse : Type 0 where
  pub job_id : String
  pub total : ℕ
  pub returned : ℕ
  pub limit : ℕ
  pub offset : ℕ
  pub tasks : List JobTaskStatus

pub record CancelJobResponse : Type 0 where
  pub accepted : Bool

pub record RegisterWorkerResponse : Type 0 where
  pub accepted : Bool
  pub heartbeat_interval_seconds : ℕ

pub record HeartbeatResponse : Type 0 where
  pub accepted : Bool

pub record PollAssignmentsResponse : Type 0 where
  pub assignments : List Assignment

pub record ReportTaskResultResponse : Type 0 where
  pub accepted : Bool

pub record DeadLetterTask : Type 0 where
  pub job_id : String
  pub task_id : String

pub record ListDeadLettersResponse : Type 0 where
  pub tasks : List DeadLetterTask

pub record RequeueDeadLettersRequest : Type 0 where
  pub tasks : List DeadLetterTask
  pub dry_run : Bool

pub record RequeueDeadLettersResponse : Type 0 where
  pub dry_run : Bool
  pub requested : ℕ
  pub requeued : ℕ

pub record AuditEvent : Type 0 where
  pub id : ℕ
  pub action : String
  pub actor : String
  pub tenant : String
  pub remote_addr : String
  pub resource : String
  pub payload_hash : String
  pub prev_hash : String
  pub event_hash : String
  pub requested : ℕ
  pub result : String
  pub details : String
  pub created_at : Time

pub record ListAuditEventsResponse : Type 0 where
  pub returned : ℕ
  pub limit : ℕ
  pub offset : ℕ
  pub events : List AuditEvent

-- The two answers of the OpenAI-compatible interface, with what varies in them: the identifier, the
-- model, the text and the instant.
pub record Completion : Type 0 where
  pub id : String
  pub model : String
  pub content : String
  pub created : ℕ

-- What the body of an answer holds. `event_stream` is the stream of a job's events, by its name.
pub data Payload : Type 0 where
  error_message : String → Payload
  healthy : Payload
  metrics_snapshot prometheus_text : Payload
  submitted : SubmitJobResponse → Payload
  prefetched : PrefetchModelResponse → Payload
  job_status : JobStatusResponse → Payload
  job_tasks : JobTasksResponse → Payload
  event_stream : String → Payload
  archive_result : Bool → Payload
  cancel_result : CancelJobResponse → Payload
  registered : RegisterWorkerResponse → Payload
  beat : HeartbeatResponse → Payload
  polled : PollAssignmentsResponse → Payload
  report_result : ReportTaskResultResponse → Payload
  dead_letters : ListDeadLettersResponse → Payload
  requeue_result : RequeueDeadLettersResponse → Payload
  audit_events : ListAuditEventsResponse → Payload
  audit_csv : List (List String) → Payload
  chat_completion response_output : Completion → Payload

pub record Response : Type 0 where
  pub status : ℕ
  pub payload : Payload

abbrev pub write_json : ℕ → Payload → Response
write_json status payload = record { status = status; payload = payload }

abbrev pub write_error : ℕ → String → Response
write_error status msg = record { status = status; payload = Payload.error_message msg }
