-- ===== src/Api/Admin.antt =====
-- The handlers of internal/api/server.go on dead letters: `handleDeadLetterQueue`.
-- The hash of a list of tasks (JSON and SHA-256) is a parameter.
pub mod DryRuns
pub mod Requeues
use splai.Base.{
  ℕ, ◌*◌, ◌+◌, ◌-◌, String, ◌⧺◌, Bool, true, false, not, ◌&&◌, ◌||◌, Option, none, some, List, [],
  ◌∷◌, if◌then◌else◌, ltb, leb, ◌==◌, str_eq, is_empty, trim_space, equal_fold, itoa, atoi,
  positive, non_negative, length, map, Map, lookup_or, insert,
}
use mathlib.Core.Option
use splai.State.{Time, TaskRef, AuditEventRecord, AuditQuery, encode_task_ref}
use splai.Store.{AuditPayload}
use splai.Queue.{count_targets}
use splai.Limits.{AdminSafety, allow_requeue}
use splai.Scheduler.Engine.{Engine}
use splai.Scheduler.Workers.{list_dead, requeue_dead_refs, list_events}
use splai.Auth.{Principal, Request, header_get, query_get}
use splai.Api.Messages.{
  DeadLetterTask, RequeueDeadLettersRequest, AuditEvent, Payload, Response, write_json, write_error,
}
use splai.Api.Server.{
  Server, Access, unix, tenant_from_request, require_scopes, with_access, append_audit,
}
use splai.Api.Listing.{wrong_method}

-- the loop over the requested references; `available` counts the listed ones
unfoldable pub match_loop : List TaskRef → Map ℕ → ℕ
match_loop [] available = 0
match_loop (r ∷ rs) available =
    let k = encode_task_ref r in
    let n = lookup_or 0 k available in
    let rest = match_loop rs (if ltb 0 n then insert k (n - 1) available else available) in
    if ltb 0 n then rest + 1 else rest

unfoldable pub count_matching_refs : List TaskRef → List TaskRef → ℕ
unfolding match_loop
count_matching_refs requested in_dead = match_loop requested (count_targets in_dead [])

-- an event as a handler fills it in, for the principal and the request
unfoldable pub admin_event :
    Principal → Request → String → String → ℕ → String → String → AuditEventRecord
admin_event p r action payload_hash requested result details = record {
  id = 0;
  action = action;
  actor = p.id;
  tenant = tenant_from_request r "";
  remote_addr = r.remote_addr;
  resource = "queue/dead-letter";
  payload_hash = payload_hash;
  prev_hash = "";
  event_hash = "";
  requested = requested;
  result = result;
  details = details;
  created_at = 0;
}

-- the references of the entries, none where an entry lacks a name
unfoldable pub entry_refs : List DeadLetterTask → Option (List TaskRef)
entry_refs [] = some []
entry_refs (t ∷ ts) =
    let rest =
      Option.map (λ rs. record { job_id = t.job_id; task_id = t.task_id } ∷ rs) (entry_refs ts) in
    if is_empty t.job_id || is_empty t.task_id then none else rest

-- whether a request has to carry the token of confirmation
unfoldable pub wants_token : AdminSafety → RequeueDeadLettersRequest → Bool
wants_token safety req =
    not req.dry_run
    && ltb 0 safety.confirm_threshold
    && leb safety.confirm_threshold (length req.tasks)
    && not (is_empty safety.confirm_token)

unfoldable pub lacks_token : Request → AdminSafety → RequeueDeadLettersRequest → Bool
unfolding wants_token
lacks_token r safety req =
    wants_token safety req
    && not (str_eq (trim_space (header_get r "X-Splai-Confirm")) safety.confirm_token)

-- a dry run passes the limit without being counted
unfoldable pub admit_requeue : Time → Bool → AdminSafety → AdminSafety × Bool
admit_requeue now dry_run safety =
    if dry_run then (safety, true) else allow_requeue (unix now) safety

module _ (digest : AuditPayload → String) (hash : List DeadLetterTask → String) (now : Time) where
  unfoldable pub list_letters : Principal → Request → Server → Server × Response
  unfolding admin_event
  list_letters p r s =
      let limit : ℕ = elim (positive (atoi (query_get r "limit"))) [ none ↦ 50 | some v ↦ v ] in
      let refs = list_dead limit s.engine in
      (
        append_audit digest now
            (admin_event p r "dead_letter_list" "" limit "ok" ("returned=" ⧺ itoa (length refs))) s,
        write_json 200 (
            Payload.dead_letters (record {
              tasks = map (λ (t : TaskRef). record { job_id = t.job_id; task_id = t.task_id }) refs;
            })),
      )

  unfoldable pub dry_run_refs :
      Principal → Request → RequeueDeadLettersRequest → List TaskRef → Server → Server × Response
  unfolding admin_event count_matching_refs
  dry_run_refs p r req refs s =
      let n = length refs in
      let found = count_matching_refs refs (list_dead (n * 4) s.engine) in
      (
        append_audit digest now
            (admin_event p r "dead_letter_requeue" (hash req.tasks) n "dry_run"
              ("would_requeue=" ⧺ itoa found))
            s,
        write_json 200
            (Payload.requeue_result (record { dry_run = true; requested = n; requeued = found })),
      )

  unfoldable pub requeue_refs :
      Principal → Request → RequeueDeadLettersRequest → List TaskRef → Server → Server × Response
  unfolding admin_event
  requeue_refs p r req refs s =
      let n = length refs in
      let (e, moved) = requeue_dead_refs refs s.engine in
      (
        append_audit digest now
            (admin_event p r "dead_letter_requeue" (hash req.tasks) n "ok"
              ("requeued=" ⧺ itoa moved))
            (record s { engine = e }),
        write_json 200
            (Payload.requeue_result (record { dry_run = false; requested = n; requeued = moved })),
      )

  -- the request behind its limits
  unfoldable pub requeue_checked :
      Principal → Request → RequeueDeadLettersRequest → Server → Server × Response
  unfolding entry_refs dry_run_refs requeue_refs
  requeue_checked p r req s = elim (entry_refs req.tasks) [
    | none ↦ (s, write_error 400 "task entries require job_id and task_id")
    | some refs ↦ if req.dry_run then dry_run_refs p r req refs s else requeue_refs p r req refs s
  ]

  unfoldable pub limit_requeue :
      Principal → Request → RequeueDeadLettersRequest → Server → Server × Response
  unfolding admit_requeue requeue_checked
  limit_requeue p r req s =
      let (safety, admitted) = admit_requeue now req.dry_run s.safety in
      let s' = record s { safety = safety } in
      if not admitted
      then (s', write_error 429 "requeue rate limit exceeded")
      else requeue_checked p r req s'

  unfoldable pub requeue_letters :
      Principal → Request → RequeueDeadLettersRequest → Server → Server × Response
  unfolding lacks_token limit_requeue
  requeue_letters p r req s =
      if length req.tasks == 0
      then (s, write_error 400 "tasks is required")
      else if ltb 0 s.safety.max_batch && ltb s.safety.max_batch (length req.tasks)
      then (s, write_error 400 ("tasks exceeds max batch size " ⧺ itoa s.safety.max_batch))
      else if lacks_token r s.safety req
      then (s, write_error 400 "confirmation token required for large requeue")
      else limit_requeue p r req s

  unfoldable pub handle_dead_letter_queue :
      Request → Option RequeueDeadLettersRequest → Server → Server × Response
  unfolding list_letters requeue_letters
  handle_dead_letter_queue r body s = with_access s (require_scopes s r ("operator" ∷ [])) (λ p.
      if str_eq r.method "GET"
      then list_letters p r s
      else if str_eq r.method "POST"
      then elim body [
        | none ↦ (s, write_error 400 "invalid request body")
        | some req ↦ requeue_letters p r req s
      ]
      else (s, wrong_method))
