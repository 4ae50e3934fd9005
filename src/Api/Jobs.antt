-- ===== src/Api/Jobs.antt =====
-- The handlers of internal/api/server.go that create jobs: `handleJobs` and `handleModelPrefetch`.
-- The body of a request is what its decoding gives, none where that fails.
pub mod Plans
pub mod Accepted
pub mod Prefetch
pub mod Targets
use splai.Base.{
  ℕ, zero, suc, String, ◌⧺◌, Bool, true, false, not, Option, none, some, List, [], ◌∷◌,
  if◌then◌else◌, ltb, str_eq, is_empty, trim_space, to_lower, equal_fold, contains, itoa, length,
  member, ◌==◌, ◌&&◌, ◌+◌, map, Result, ok, err,
}
use splai.State.{Time, WorkerRecord, AuditEventRecord}
use splai.Store.{AuditPayload}
use splai.Planner.{Task, Dag, Compiler, compile_with_mode}
use splai.Router.{Decision, route}
use splai.Limits.{allow}
use splai.Scheduler.Engine.{Engine}
use splai.Scheduler.Placement.{sort_texts}
use splai.Scheduler.Submit.{Submission, add_job}
use splai.Scheduler.Workers.{list_all_workers}
use splai.Auth.{Principal, Request}
use splai.Auth.Tokens.{add_scopes, trimmed_parts}
use splai.Api.Messages.{
  SubmitJobRequest, SubmitJobResponse, PrefetchModelRequest, PrefetchModelResponse, Payload,
  Response, write_json, write_error,
}
use splai.Api.Server.{
  Server, next_seq, job_name, unix, tenant_from_request, require_scopes, require_tenant_action,
  with_access, append_audit,
}
use splai.Api.Injects.{inject_model_backend, inject_model_install_tasks, inject_job_spread}

abbrev pub or_else : String → String → String
or_else text default = if is_empty text then default else text

unfoldable pub with_defaults : SubmitJobRequest → SubmitJobRequest
with_defaults req =
    let priority = or_else req.priority "interactive" in
    record req {
      priority = priority;
      latency_class = or_else req.latency_class priority;
      policy = or_else req.policy "enterprise-default";
      planner_mode = or_else req.planner_mode "template";
    }

abbrev pub route_of : Server → SubmitJobRequest → Decision
route_of s req = route s.router (record {
  latency_class = req.latency_class;
  reasoning_required = req.reasoning_required;
  data_classification = req.data_classification;
  requested_model = req.model;
})

-- the plan of a job, with all that the handler adds to it
unfoldable pub plan_job : Compiler → String → SubmitJobRequest → Decision → Dag
plan_job planner job_id req d =
    inject_job_spread
      (inject_model_install_tasks
        (inject_model_backend (compile_with_mode planner job_id req.type req.input req.planner_mode)
          d.backend)
        req.model d.backend req.install_model_if_missing)
      req.job_spread

abbrev pub submission_of : String → String → SubmitJobRequest → Submission
submission_of job_id tenant req = record {
  id = job_id;
  tenant = tenant;
  req_type = req.type;
  input = req.input;
  policy_name = req.policy;
  priority = req.priority;
  data_classification = req.data_classification;
  model = req.model;
  network_isolation = req.network_isolation;
}

unfoldable pub route_event : Time → String → String → Decision → AuditEventRecord
route_event now job_id tenant d = record {
  id = 0;
  action = "model_route_decision";
  actor = "system/router";
  tenant = tenant;
  remote_addr = "";
  resource = "models";
  payload_hash = "";
  prev_hash = "";
  event_hash = "";
  requested = 0;
  result = "ok";
  details =
      "job_id="
      ⧺ (job_id ⧺ (" backend=" ⧺ (d.backend ⧺ (" model=" ⧺ (d.model ⧺ (" rule=" ⧺ d.rule))))));
  created_at = now;
}

module _ (digest : AuditPayload → String) (now : Time) where
  -- the answer to a job that the engine took in or turned down
  unfoldable pub answer_job :
      String → String → Decision → Server → Engine × Result (Unit {0}) → Server × Response
  unfolding route_event
  answer_job job_id tenant d s (e, err message) = (
    record s { engine = e },
    write_error (if contains message "policy denied submit" then 403 else 500) message,
  )
  answer_job job_id tenant d s (e, ok _) = (
    append_audit digest now (route_event now job_id tenant d) (record s { engine = e }),
    write_json 202 (Payload.submitted (record { job_id = job_id })),
  )

  -- the part of the handler behind the limiter
  unfoldable pub start_job : String → SubmitJobRequest → Decision → Server → Server × Response
  unfolding plan_job answer_job
  start_job tenant req d s =
      let n = next_seq s.seq in
      let job_id = job_name n in
      answer_job job_id tenant d (record s { seq = n })
        (add_job digest now (submission_of job_id tenant req) (plan_job s.planner job_id req d)
          s.engine)

  unfoldable pub limit_job : String → SubmitJobRequest → Decision → Server → Server × Response
  unfolding start_job
  limit_job tenant req d s =
      let (limiter, allowed) = allow tenant (unix now) s.limiter in
      if not allowed
      then (record s { limiter = limiter }, write_error 429 "submit rate limit exceeded")
      else start_job tenant req d (record s { limiter = limiter })

  unfoldable pub handle_jobs : Request → Option SubmitJobRequest → Server → Server × Response
  unfolding with_defaults limit_job
  handle_jobs r body s =
      if not (str_eq r.method "POST")
      then (s, write_error 405 "method not allowed")
      else elim body [
        | none ↦ (s, write_error 400 "invalid request body")
        | some raw ↦
            let req = with_defaults raw in
            let d = route_of s req in
            let req' = record req { model = or_else req.model d.model } in
            let tenant = tenant_from_request r req.tenant in
            with_access s (require_tenant_action s r tenant "submit")
              (λ _. limit_job tenant req' d s)
      ]

-- fmt's %03d of a number that is not negative
abbrev pub three_digits : ℕ → String
three_digits n = if ltb n 10 then "00" ⧺ itoa n else if ltb n 100 then "0" ⧺ itoa n else itoa n

unfoldable pub prefetch_task : ℕ → String → String → Bool → WorkerRecord → Task
prefetch_task i model source only_missing w = record {
  task_id = "prefetch-" ⧺ three_digits (i + 1);
  type = "model_download";
  timeout_sec = 1800;
  max_retries = 1;
  inputs =
      ("model", model)
      ∷ ("source", source)
      ∷ ("only_if_missing", if only_missing then "true" else "false")
      ∷ ("_target_worker", w.id)
      ∷ ("_data_locality", w.locality)
      ∷ [];
  dependencies = [];
  resources = none;
  constraints = none;
}

unfoldable pub prefetch_tasks : ℕ → String → String → Bool → List WorkerRecord → List Task
unfolding prefetch_task
prefetch_tasks i model source only_missing [] = []
prefetch_tasks i model source only_missing (w ∷ ws) =
    prefetch_task i model source only_missing w
    ∷ prefetch_tasks (i + 1) model source only_missing ws

abbrev pub submission_of_prefetch : String → String → String → String → Submission
submission_of_prefetch job_id tenant model priority = record {
  id = job_id;
  tenant = tenant;
  req_type = "model_prefetch";
  input = model;
  policy_name = "enterprise-default";
  priority = priority;
  data_classification = "internal";
  model = model;
  network_isolation = "default";
}

-- the workers that are not unhealthy and that the request names, if it names any
unfoldable pub targeted : List String → List WorkerRecord → List WorkerRecord
targeted target_set [] = []
targeted target_set (w ∷ ws) =
    let rest = targeted target_set ws in
    if equal_fold w.health "unhealthy"
    then rest
    else if ltb 0 (length target_set) && not (member w.id target_set)
    then rest
    else w ∷ rest

module _ (digest : AuditPayload → String) (now : Time) where
  unfoldable pub answer_prefetch :
      PrefetchModelResponse → Server → Engine × Result (Unit {0}) → Server × Response
  answer_prefetch out s (e, err message) = (record s { engine = e }, write_error 500 message)
  answer_prefetch out s (e, ok _) =
      (record s { engine = e }, write_json 202 (Payload.prefetched out))

  -- the part of the handler that creates the job, for the workers that are left
  unfoldable pub start_prefetch :
      Request
      → PrefetchModelRequest
      → String
      → String
      → Bool
      → List WorkerRecord
      → Server
      → Server × Response
  unfolding prefetch_tasks answer_prefetch
  start_prefetch r req model source only_missing [] s =
      (s, write_error 400 "no eligible workers found")
  start_prefetch r req model source only_missing (w ∷ ws) s =
      let n = next_seq s.seq in
      let job_id = job_name n in
      let tasks = prefetch_tasks 0 model source only_missing (w ∷ ws) in
      let priority = trim_space req.priority in
      answer_prefetch
        (record {
          job_id = job_id;
          model = model;
          source = source;
          targeted_workers = sort_texts (map (λ (v : WorkerRecord). v.id) (w ∷ ws));
          scheduled_tasks = length tasks;
          only_missing = only_missing;
        })
        (record s { seq = n })
        (add_job digest now
          (submission_of_prefetch job_id (tenant_from_request r req.tenant) model
            (or_else priority "standard"))
          (record { dag_id = "dag-prefetch-" ⧺ job_id; tasks = tasks }) s.engine)

  unfoldable pub prefetch : Request → PrefetchModelRequest → Server → Server × Response
  unfolding targeted start_prefetch
  prefetch r req s =
      let model = trim_space req.model in
      let source = or_else (to_lower (trim_space req.source)) "huggingface" in
      let only_missing : Bool = elim req.only_missing [ none ↦ true | some b ↦ b ] in
      if is_empty model
      then (s, write_error 400 "model is required")
      else if not (str_eq source "huggingface")
      then (s, write_error 400 "source must be huggingface")
      else start_prefetch r req model source only_missing
          (targeted (add_scopes (trimmed_parts req.workers) []) (list_all_workers s.engine)) s

  unfoldable pub handle_model_prefetch :
      Request → Option PrefetchModelRequest → Server → Server × Response
  unfolding prefetch
  handle_model_prefetch r body s = with_access s (require_scopes s r ("operator" ∷ [])) (λ _.
      if not (str_eq r.method "POST")
      then (s, write_error 405 "method not allowed")
      else elim body [
        | none ↦ (s, write_error 400 "invalid request body")
        | some req ↦ prefetch r req s
      ])
