-- ===== src/Api/Stream.antt =====
-- `streamJobEvents` of internal/api/server.go: a job's events as they are sent to a client. The
-- printing of an instant by time.RFC3339Nano is a parameter, and an event holds the record whose
-- payload it sends.
pub mod Views
pub mod Follows
use splai.Base.{
  ℕ, String, Bool, true, false, not, ◌||◌, Option, none, some, List, [], ◌∷◌, ◌++◌, if◌then◌else◌,
  str_eq, itoa, join, Map, lookup, insert,
}
use splai.State.{Time, Status, completed, failed, canceled, archived, status_text, JobRecord}
use splai.Scheduler.Engine.{Engine, is_terminal}
use splai.Scheduler.Workers.{TaskStatus, get_job_view, get_job_tasks}

pub data Event : Type 0 where
  failure : String → Event
  snapshot : JobRecord → List TaskStatus → Event
  job_changed : JobRecord → Event
  task_update : TaskStatus → Event
  final : String → JobRecord → Event
  keepalive : Event

unfoldable pub terminal_event_for_status : Status → String
terminal_event_for_status completed = "job.completed"
terminal_event_for_status failed = "job.failed"
terminal_event_for_status canceled = "job.canceled"
terminal_event_for_status archived = "job.archived"
terminal_event_for_status _ = "job.terminal"

abbrev pub final_event : JobRecord → Event
final_event job = Event.final (terminal_event_for_status job.status) job

-- what the server remembers of what it has sent
pub record StreamState : Type 0 where
  pub task_states : Map String
  pub last_job_state : String

-- what wakes the loop: the ticker of the polls, that of the signs of life, or the client's leaving
pub data Tick : Type 0 where
  poll : Engine → Tick
  alive : Tick
  left : Tick

abbrev pub tasks_of : String → Engine → List TaskStatus
tasks_of job_id e = elim (get_job_tasks job_id e) [ none ↦ [] | some tasks ↦ tasks ]

module _ (format : Time → String) where
  unfoldable pub job_state_hash : JobRecord → String
  job_state_hash job =
      join "|" (
        status_text job.status ∷ job.message ∷ job.result_artifact_uri ∷ format job.updated_at ∷ [])

  unfoldable pub task_state_hash : TaskStatus → String
  task_state_hash t = join "|" (
      status_text t.status
      ∷ itoa t.attempt
      ∷ t.worker_id
      ∷ t.lease_id
      ∷ t.output_uri
      ∷ t.error
      ∷ format t.updated_at
      ∷ [])

  unfoldable pub first_states : List TaskStatus → Map String → Map String
  first_states [] m = m
  first_states (t ∷ ts) m = first_states ts (insert t.task_id (task_state_hash t) m)

  -- whether the task is new, or differs from what was sent of it
  unfoldable pub has_changed : TaskStatus → Map String → Bool
  has_changed t m = elim (lookup t.task_id m) [
    | none ↦ true
    | some prev ↦ not (str_eq prev (task_state_hash t))
  ]

  unfoldable pub task_updates : List TaskStatus → Map String → Map String × List Event
  unfolding has_changed
  task_updates [] m = (m, [])
  task_updates (t ∷ ts) m =
      let changed = has_changed t m in
      let (m', events) =
        task_updates ts (if changed then insert t.task_id (task_state_hash t) m else m) in
      (m', if changed then Event.task_update t ∷ events else events)

  unfoldable pub job_update : JobRecord → String → List Event
  job_update job last = if str_eq (job_state_hash job) last then [] else Event.job_changed job ∷ []

  -- A poll that finds the job: what is sent, what is remembered, and whether the loop goes on.
  unfoldable pub poll_events :
      JobRecord → List TaskStatus → StreamState → StreamState × List Event × Bool
  unfolding job_update task_updates
  poll_events job tasks st =
      let (m, updates) = task_updates tasks st.task_states in
      let events = job_update job st.last_job_state ++ updates in
      let over = is_terminal job.status in
      (
        record { task_states = m; last_job_state = job_state_hash job },
        if over then events ++ final_event job ∷ [] else events,
        not over,
      )

  unfoldable pub poll_engine : String → Engine → StreamState → StreamState × List Event × Bool
  unfolding poll_events
  poll_engine job_id e st = elim (get_job_view job_id e) [
    | none ↦ (st, Event.failure "job not found" ∷ [], false)
    | some job ↦ poll_events job (tasks_of job_id e) st
  ]

  unfoldable pub stream_loop : String → List Tick → StreamState → List Event
  unfolding poll_engine
  stream_loop job_id [] st = []
  stream_loop job_id (Tick.left ∷ ticks) st = []
  stream_loop job_id (Tick.alive ∷ ticks) st = Event.keepalive ∷ stream_loop job_id ticks st
  stream_loop job_id (Tick.poll e ∷ ticks) st =
      let (st', events, more) = poll_engine job_id e st in
      let rest = stream_loop job_id ticks st' in if more then events ++ rest else events

  -- the stream of a job, from the engine at its beginning and the ticks that follow
  unfoldable pub stream_job_events : String → Engine → List Tick → List Event
  unfolding first_states stream_loop
  stream_job_events job_id e ticks = elim (get_job_view job_id e) [
    | none ↦ Event.failure "job not found" ∷ []
    | some job ↦
        let tasks = tasks_of job_id e in
        let st : StreamState = record {
          task_states = first_states tasks [];
          last_job_state = job_state_hash job;
        } in
        let rest = stream_loop job_id ticks st in
        Event.snapshot job tasks ∷ (if is_terminal job.status then final_event job ∷ [] else rest)
  ]
