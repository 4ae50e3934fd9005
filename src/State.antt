-- ===== src/State.antt =====
-- internal/state/types.go, with the status names of internal/scheduler/engine.go.
-- A time is the number of nanoseconds since Go's zero time, so 0 is the zero time; a duration is
-- a number of nanoseconds.
use splai.Base.{ℕ, ◌*◌, String, Bool, true, false, ◌&&◌, List, ◌==◌, str_eq, Map, ◌⧺◌}

abbrev pub Time : Type 0
Time = ℕ

abbrev pub second : ℕ
second = 1_000_000_000

abbrev pub minute : ℕ
minute = 60 * second

-- time.Time.IsZero
abbrev pub is_zero : Time → Bool
is_zero t = t == 0

-- time.Unix(0, 0)
abbrev pub unix_epoch : Time
unix_epoch = 62135596800 * second

-- The texts that the engine stores as a status, and any other text.
pub data Status : Type 0 where
  queued assigned running completed failed canceled archived : Status
  other : String → Status

abbrev pub status_eq : Status → Status → Bool
status_eq queued queued = true
status_eq assigned assigned = true
status_eq running running = true
status_eq completed completed = true
status_eq failed failed = true
status_eq canceled canceled = true
status_eq archived archived = true
status_eq (other s) (other t) = str_eq s t
status_eq _ _ = false

abbrev pub status_text : Status → String
status_text queued = "Queued"
status_text assigned = "Assigned"
status_text running = "Running"
status_text completed = "Completed"
status_text failed = "Failed"
status_text canceled = "Canceled"
status_text archived = "Archived"
status_text (other s) = s

pub record JobRecord : Type 0 where
  pub id : String
  pub tenant : String
  pub type : String
  pub input : String
  pub policy : String
  pub priority : String
  pub status : Status
  pub message : String
  pub result_artifact_uri : String
  pub created_at : Time
  pub updated_at : Time

pub record TaskRecord : Type 0 where
  pub job_id : String
  pub task_id : String
  pub type : String
  pub inputs : Map String
  pub dependencies : List String
  pub status : Status
  pub worker_id : String
  pub lease_id : String
  pub lease_expires : Time
  pub attempt : ℕ
  pub max_retries : ℕ
  pub timeout_sec : ℕ
  pub output_uri : String
  pub error : String
  pub last_report_key : String
  pub created_at : Time
  pub updated_at : Time

pub record TaskRef : Type 0 where
  pub job_id : String
  pub task_id : String

pub record QueueClaim : Type 0 where
  pub ref : TaskRef
  pub receipt : String
  pub claimed_by : String
  pub claimed_at : Time
  pub visible_at : Time

abbrev pub ref_eq : TaskRef → TaskRef → Bool
ref_eq r s = str_eq r.job_id s.job_id && str_eq r.task_id s.task_id

-- a float64, by the bits of its representation
abbrev pub Float : Type 0
Float = ℕ

pub record WorkerRecord : Type 0 where
  pub id : String
  pub cpu : ℕ
  pub memory : String
  pub gpu : Bool
  pub models : List String
  pub tools : List String
  pub backends : List String
  pub locality : String
  pub health : String
  pub queue_depth : ℕ
  pub running_tasks : ℕ
  pub cpu_util : Float
  pub memory_util : Float
  pub last_heartbeat : Time

pub record AuditEventRecord : Type 0 where
  pub id : ℕ
  pub action : String
  pub actor : String
  pub tenant : String
  pub remote_addr : String
  pub resource : String
  pub payload_hash : String
  pub prev_hash : String
  pub event_hash : String
  pub requested : ℕ
  pub result : String
  pub details : String
  pub created_at : Time

pub record AuditQuery : Type 0 where
  pub limit : ℕ
  pub offset : ℕ
  pub action : String
  pub actor : String
  pub tenant : String
  pub result : String
  pub from : Time
  pub to : Time

-- internal/state/redis_queue.go, which both queues use
unfoldable pub encode_task_ref : TaskRef → String
encode_task_ref r = r.job_id ⧺ ("|" ⧺ r.task_id)
