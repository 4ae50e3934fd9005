-- ===== src/Api/Compat.antt =====
-- The OpenAI-compatible handlers of internal/api/server.go: `handleOpenAIChatCompletions`,
-- `handleOpenAIResponses` and the job that they run and wait for. While a handler waits other
-- requests change the server: `look n` is the instant of its round `n` and the server then; `done` is the instant of the answer.
pub mod Waiting
pub mod Refusals
use splai.Base.{
  ℕ, zero, suc, ◌+◌, String, ◌⧺◌, Bool, true, false, not, ◌&&◌, ◌||◌, Option, none, some, List, [],
  ◌∷◌, if◌then◌else◌, ltb, ◌==◌, str_eq, is_empty, trim_space, to_lower, contains, itoa, join, map,
  Result, ok, err,
}
use splai.State.{Time, completed, failed, canceled, status_eq, JobRecord}
use splai.Store.{AuditPayload}
use splai.Planner.{compile_with_mode}
use splai.Router.{Decision, route}
use splai.Scheduler.Engine.{Engine}
use splai.Scheduler.Submit.{Submission, add_job}
use splai.Scheduler.Workers.{get_job_view}
use splai.Auth.{Principal, Request, authorize, can_tenant_action}
use splai.Api.Messages.{Completion, Payload, Response, write_json, write_error}
use splai.Api.Server.{Server, next_seq, job_name, unix, tenant_from_request}
use splai.Api.Listing.{wrong_method}
use splai.Api.Injects.{inject_model_backend}
use splai.Api.Artifacts.{Artifact, resolve_openai_compat_content}

pub record ChatMessage : Type 0 where
  pub role : String
  pub content : String

pub record ChatRequest : Type 0 where
  pub model : String
  pub messages : List ChatMessage
  pub stream : Bool

-- what `input` holds: a text, a list, no_input, or something else; the parts of a list and whatever is
-- else come with the text that fmt.Sprint gives for them
pub data ResponsesInput : Type 0 where
  text : String → ResponsesInput
  items : List String → ResponsesInput
  no_input : ResponsesInput
  something : String → ResponsesInput

pub record ResponsesRequest : Type 0 where
  pub model : String
  pub input : ResponsesInput
  pub stream : Bool

-- the loop over the messages, behind the text `b`
unfoldable pub prompt_loop : List ChatMessage → String → String
prompt_loop [] b = b
prompt_loop (m ∷ ms) b =
    let role = trim_space m.role in
    let text = trim_space m.content in
    let line = (if is_empty role then "user" else role) ⧺ (": " ⧺ text) in
    prompt_loop ms (if is_empty text then b else if is_empty b then line else b ⧺ ("\n" ⧺ line))

unfoldable pub build_chat_prompt : List ChatMessage → String
unfolding prompt_loop
build_chat_prompt messages = trim_space (prompt_loop messages "")

unfoldable pub build_responses_prompt : ResponsesInput → String
build_responses_prompt (ResponsesInput.text s) = trim_space s
build_responses_prompt (ResponsesInput.items parts) = trim_space (join "\n" parts)
build_responses_prompt ResponsesInput.no_input = ""
build_responses_prompt (ResponsesInput.something s) = trim_space s

unfoldable pub http_status_for_compat_err : String → ℕ
http_status_for_compat_err message =
    let msg = to_lower message in
    if contains msg "timeout" then 504 else if contains msg "denied" then 403 else 500

-- a text and the model that gave it, or an error, with the server afterwards
abbrev pub Ran : Type 0
Ran = Server × Result (String × String)

unfoldable pub failure_message : JobRecord → String
failure_message job = if is_empty job.message then "job failed" else job.message

module _ (read : String → Option Artifact) where
  -- what a look at the job tells, none if the loop goes on
  unfoldable pub job_outcome : String → String → Server → Option JobRecord → Option Ran
  unfolding failure_message
  job_outcome job_id model s none = some (s, err "job not found")
  job_outcome job_id model s (some job) =
      if status_eq job.status completed
      then some (s, ok (resolve_openai_compat_content read s job_id job.result_artifact_uri, model))
      else if status_eq job.status failed || status_eq job.status canceled
      then some (s, err (failure_message job))
      else none

  abbrev compat_timeout_error : Server → Ran
  compat_timeout_error s = (s, err "openai compatibility timeout waiting for completion")

  -- The loop from round `n` on; none if the fuel runs out before the loop ends.
  unfoldable pub wait_loop : ℕ → (ℕ → Time × Server) → ℕ → Time → String → String → Option Ran
  unfolding job_outcome
  wait_loop zero look n deadline job_id model = none
  wait_loop (suc fuel) look n deadline job_id model =
      let (now, s) = look n in
      let rest = wait_loop fuel look (n + 1) deadline job_id model in
      if not (ltb now deadline)
      then some (compat_timeout_error s)
      else elim (job_outcome job_id model s (get_job_view job_id s.engine)) [
        | none ↦ rest
        | some ran ↦ some ran
      ]

abbrev route_of_model : Server → String → Decision
route_of_model s model = route s.router (record {
  latency_class = "interactive";
  reasoning_required = true;
  data_classification = "internal";
  requested_model = model;
})

abbrev compat_submission : String → String → String → String → Submission
compat_submission job_id tenant prompt model = record {
  id = job_id;
  tenant = tenant;
  req_type = "chat";
  input = prompt;
  policy_name = "enterprise-default";
  priority = "interactive";
  data_classification = "internal";
  model = model;
  network_isolation = "default";
}

module _ (read : String → Option Artifact) (digest : AuditPayload → String) (now : Time) where
  module _ (fuel : ℕ) (look : ℕ → Time × Server) (done : Time) where
    -- the wait for a job that the engine has taken in
    unfoldable pub await_job : String → String → Server → Engine × Result (Unit {0}) → Option Ran
    await_job job_id model s (e, err message) = some (record s { engine = e }, err message)
    await_job job_id model s (e, ok _) = wait_loop read fuel look 0 (now + s.timeout) job_id model

    unfoldable pub run_openai_compat_job : Request → String → String → Server → Option Ran
    unfolding await_job
    run_openai_compat_job r model prompt s =
        let tenant = tenant_from_request r "" in
        let (p, code, msg) = authorize s.auth r [] in
        let d = route_of_model s model in
        let used = if is_empty model then d.model else model in
        let n = next_seq s.seq in
        let job_id = job_name n in
        if not (code == 200)
        then some (s, err msg)
        else if s.auth.enabled && not (can_tenant_action p tenant "submit")
        then some (s, err "tenant action denied")
        else await_job job_id used (record s { seq = n })
            (add_job digest now (compat_submission job_id tenant prompt used)
              (inject_model_backend (compile_with_mode s.planner job_id "chat" prompt "template")
                d.backend)
              s.engine)

    -- the answer, made of a completion under a new name
    unfoldable pub answer_run :
        (Completion → Payload) → String → Option Ran → Option (Server × Response)
    answer_run shape prefix none = none
    answer_run shape prefix (some (s, err message)) =
        some (s, write_error (http_status_for_compat_err message) message)
    answer_run shape prefix (some (s, ok (content, model))) =
        let n = next_seq s.seq in
        some (
          record s { seq = n },
          write_json 200 (
              shape (record {
                id = prefix ⧺ itoa n;
                model = model;
                content = content;
                created = unix done;
              })),
        )

    abbrev or_default : String → String
    or_default model = let m = trim_space model in if is_empty m then "llama3-8b-q4" else m

    unfoldable pub handle_openai_chat_completions :
        Request → Option ChatRequest → Server → Option (Server × Response)
    unfolding run_openai_compat_job answer_run build_chat_prompt http_status_for_compat_err
    handle_openai_chat_completions r body s =
        if not (str_eq r.method "POST") then some (s, wrong_method) else elim body [
          | none ↦ some (s, write_error 400 "invalid request body")
          | some req ↦
              let prompt = build_chat_prompt req.messages in
              if req.stream
              then some (s, write_error 400 "stream=true is not supported in compatibility mode")
              else if is_empty prompt
              then some (s, write_error 400 "messages is required")
              else answer_run Payload.chat_completion "chatcmpl-"
                  (run_openai_compat_job r (or_default req.model) prompt s)
        ]

    unfoldable pub handle_openai_responses :
        Request → Option ResponsesRequest → Server → Option (Server × Response)
    unfolding run_openai_compat_job answer_run build_responses_prompt http_status_for_compat_err
    handle_openai_responses r body s =
        if not (str_eq r.method "POST") then some (s, wrong_method) else elim body [
          | none ↦ some (s, write_error 400 "invalid request body")
          | some req ↦
              let prompt = build_responses_prompt req.input in
              if req.stream
              then some (s, write_error 400 "stream=true is not supported in compatibility mode")
              else if is_empty prompt
              then some (s, write_error 400 "input is required")
              else answer_run Payload.response_output "resp_"
                  (run_openai_compat_job r (or_default req.model) prompt s)
        ]
