-- ===== src/Api/Admin/Requeues.antt =====
-- What has to hold before `handleDeadLetterQueue` of internal/api/server.go touches the queue.
use splai.Base.{
  ◌≤◌, ◌<◌, String, ◌≡◌, ◌≢◌, true, false, Option, some, List, [], ◌∷◌, ◌++◌, trim_space, length,
  ◌⊎◌,
}
use splai.State.{Time, TaskRef, AuditEventRecord}
use splai.Store.{AuditPayload}
use splai.Queue.{requeue_dead_letters}
use splai.Limits.{AdminSafety, allow_requeue}
use splai.Auth.{Principal, Request, header_get}
use splai.Api.Messages.{DeadLetterTask, RequeueDeadLettersRequest, Response}
use splai.Api.Server.{Server, passed, unix, require_scopes}
use splai.Api.Admin.{entry_refs}

-- the queue before and after
abbrev Same : Server → Server → Type 0
Same s s' = s'.engine.queue ≡ s.engine.queue

-- The requested references were put back as the queue does it, and the log has one more event, which
-- names the principal.
pub record Moves (p : Principal) (req : RequeueDeadLettersRequest) (s s' : Server) : Type 0 where
  pub refs : List TaskRef
  pub named : entry_refs req.tasks ≡ some refs
  pub real : req.dry_run ≡ false
  pub moved : s'.engine.queue ≡ (requeue_dead_letters refs s.engine.queue).0
  pub event : AuditEventRecord
  pub logged : s'.engine.store.audits ≡ s.engine.store.audits ++ event ∷ []
  pub actor : event.actor ≡ p.id
  pub action : event.action ≡ "dead_letter_requeue"
  pub counted : event.requested ≡ length refs

abbrev Moved : Principal → RequeueDeadLettersRequest → Server → Server → Type 0
Moved p req s s' = Same s s' ⊎ Moves p req s s'

-- the limits that a request has kept
pub record Allowed (now : Time) (r : Request) (req : RequeueDeadLettersRequest)
    (safety : AdminSafety) : Type 0 where
  pub some_tasks : 0 < length req.tasks
  pub batch : 0 < safety.max_batch → length req.tasks ≤ safety.max_batch
  pub confirmed :
      0 < safety.confirm_threshold
      → safety.confirm_threshold ≤ length req.tasks
      → safety.confirm_token ≢ ""
      → trim_space (header_get r "X-Splai-Confirm") ≡ safety.confirm_token
  pub in_rate : (allow_requeue (unix now) safety).1 ≡ true

module _ (digest : AuditPayload → String) (hash : List DeadLetterTask → String) (now : Time) where
  -- the queue stays, or the request has kept the limits and is carried out
  abbrev pub Passes :
      Principal → Request → RequeueDeadLettersRequest → Server → Server × Response → Type 0
  Passes p r req s (s', a) = Same s s' ⊎ (Allowed now r req s.safety × Moves p req s s')

  abbrev pub Guarded :
      Request → Option RequeueDeadLettersRequest → Server → Server × Response → Type 0
  Guarded r body s out =
      (out.0.engine.queue ≡ s.engine.queue)
      ⊎ ((p : Principal) × (req : RequeueDeadLettersRequest) × (require_scopes s r ("operator" ∷ [])
            ≡ passed p)
          × (body ≡ some req)
          × Allowed now r req s.safety
          × Moves p req s out.0)
