-- ===== src/Api/Stream/Follows.antt =====
-- A client of `streamJobEvents` in internal/api/server.go keeps up with the job.
use splai.Base.{String, ◌≡◌, false, some, List, [], ◌∷◌, ◌++◌}
use splai.State.{Time, JobRecord}
use splai.Scheduler.Engine.{Engine, is_terminal}
use splai.Scheduler.Workers.{TaskStatus, get_job_view}
use splai.Api.Stream.{Event, StreamState, Tick, tasks_of, job_state_hash, task_updates, job_update}
use splai.Api.Stream.Views.{View, IsSynced, AreDistinct}

module _ (format : Time → String) where
  -- one poll
  module _ (job : JobRecord) (ts : List TaskStatus) (st : StreamState) (v : View)
      (s : IsSynced format st v) where
    abbrev sent : List Event
    sent = job_update format job st.last_job_state ++ (task_updates format ts st.task_states).1

    abbrev after : StreamState
    after = record {
      task_states = (task_updates format ts st.task_states).0;
      last_job_state = job_state_hash format job;
    }

  module _ (job_id : String) where
    -- an engine that holds the job, with tasks of different names
    pub record Holds (e : Engine) (job : JobRecord) : Type 0 where
      pub found : get_job_view job_id e ≡ some job
      pub distinct : AreDistinct format (tasks_of job_id e)

    -- The ticks that a stream lives through, from an engine that it has shown to the last one: while
    -- the job is in no terminal state the next tick is waited for.
    pub data Watched : Engine → List Tick → Engine → JobRecord → Type 0 where
      last : {e : Engine} {job : JobRecord} → Holds e job → Watched e [] e job
      idle :
          {e e' : Engine} {job' : JobRecord} {ticks : List Tick}
          → Watched e ticks e' job'
          → Watched e (Tick.alive ∷ ticks) e' job'
      polled :
          {e next e' : Engine} {job job' : JobRecord} {ticks : List Tick}
          → Holds e job
          → is_terminal job.status ≡ false
          → Watched next ticks e' job'
          → Watched e (Tick.poll next ∷ ticks) e' job'
