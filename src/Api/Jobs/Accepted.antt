-- ===== src/Api/Jobs/Accepted.antt =====
-- What `handleJobs` of internal/api/server.go has done when it answers.
use splai.Base.{String, ◌≡◌, ◌≢◌}
use splai.State.{Time}
use splai.Store.{AuditPayload}
use splai.Scheduler.Engine.{Engine}
use splai.Scheduler.Submit.Plans.{IsStarted}
use splai.Api.Messages.{Payload, Response}
use splai.Api.Server.{Server}

module _ (digest : AuditPayload → String) (now : Time) where
  -- An accepted request has started the job that the answer names; a refused one has changed no job,
  -- no task and not the queue.
  pub data Settled (s : Server) : Server × Response → Type 0 where
    started :
        (id : String) (s' : Server) (a : Response)
        → a.status ≡ 202
        → a.payload ≡ Payload.submitted (record { job_id = id })
        → IsStarted id s'.engine
        → Settled s (s', a)
    unchanged :
        (s' : Server) (a : Response)
        → a.status ≢ 202
        → s'.engine.store.jobs ≡ s.engine.store.jobs
        → s'.engine.store.tasks ≡ s.engine.store.tasks
        → s'.engine.queue ≡ s.engine.queue
        → Settled s (s', a)
