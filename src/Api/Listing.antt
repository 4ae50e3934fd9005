-- ===== src/Api/Listing.antt =====
-- `handleJobByID` of internal/api/server.go: a job's status, its tasks page by page, its
-- cancellation and its archiving.
pub mod Pages
pub mod Guards
use splai.Base.{
  ℕ, String, Bool, true, false, not, ◌&&◌, ◌||◌, Option, none, some, List, [], ◌∷◌, if◌then◌else◌,
  ltb, leb, str_eq, is_empty, trim_space, trim_prefix, split, length, take, drop, keep, map, atoi,
  non_negative, Result, ok, err,
}
use splai.State.{Time, Status, status_text, is_zero, JobRecord}
use splai.Scheduler.Engine.{Engine}
use splai.Scheduler.Workers.{TaskStatus, get_job_view, get_job_tasks}
use splai.Scheduler.Lifecycle.{cancel_job, archive_job}
use splai.Auth.{Request, query_get}
use splai.Api.Messages.{JobTaskStatus, JobTasksResponse, Payload, Response, write_json, write_error}
use splai.Api.Server.{Server, require_tenant_action, with_access}

-- a parameter that is a number, 0 where it is not given, none where it is no such number
unfoldable pub page_number : Request → String → Option ℕ
page_number r key =
    let raw = trim_space (query_get r key) in
    if is_empty raw then some 0 else non_negative (atoi raw)

unfoldable pub task_passes : String → String → TaskStatus → Bool
task_passes status worker t =
    (is_empty status || str_eq (status_text t.status) status)
    && (is_empty worker || str_eq t.worker_id worker)

-- filtered[offset:], cut to the limit
unfoldable pub page_of {ℓ} : {A : Type ℓ} → ℕ → ℕ → List A → List A
page_of limit offset xs =
    let total = length xs in
    let page = drop (if ltb total offset then total else offset) xs in
    if ltb 0 limit && ltb limit (length page) then take limit page else page

unfoldable pub task_item : TaskStatus → JobTaskStatus
task_item t = record {
  task_id = t.task_id;
  type = t.type;
  status = t.status;
  attempt = t.attempt;
  worker_id = t.worker_id;
  lease_id = t.lease_id;
  lease_expires = if is_zero t.lease_expires then none else some t.lease_expires;
  output_uri = t.output_uri;
  error = t.error;
  created_at = t.created_at;
  updated_at = t.updated_at;
}

unfoldable pub tasks_page : String → String → String → ℕ → ℕ → List TaskStatus → JobTasksResponse
unfolding task_passes page_of task_item
tasks_page job_id status worker limit offset tasks =
    let filtered = keep (task_passes status worker) tasks in
    let total = length filtered in
    let out = map task_item (page_of limit offset filtered) in
    record {
      job_id = job_id;
      total = total;
      returned = length out;
      limit = limit;
      offset = if ltb total offset then total else offset;
      tasks = out;
    }

unfoldable pub list_tasks : Request → String → Server → Response
unfolding page_number tasks_page
list_tasks r job_id s = elim (get_job_tasks job_id s.engine) [
  | none ↦ write_error 404 "job not found"
  | some tasks ↦ elim (page_number r "limit") [
    | none ↦ write_error 400 "limit must be a non-negative integer"
    | some limit ↦ elim (page_number r "offset") [
      | none ↦ write_error 400 "offset must be a non-negative integer"
      | some offset ↦ write_json 200 (
          Payload.job_tasks (
            tasks_page job_id (trim_space (query_get r "status"))
              (trim_space (query_get r "worker_id")) limit offset tasks))
    ]
  ]
]

unfoldable pub answer_archive : Server → Engine × Result Bool → Server × Response
answer_archive s (e, err message) = (record s { engine = e }, write_error 500 message)
answer_archive s (e, ok accepted) =
    (record s { engine = e }, write_json 200 (Payload.archive_result accepted))

unfoldable pub answer_cancel : Server → Engine × Bool → Server × Response
answer_cancel s (e, accepted) = (
  record s { engine = e },
  write_json 200 (Payload.cancel_result (record { accepted = accepted })),
)

unfoldable pub show_job : JobRecord → Response
show_job job = write_json 200 (
    Payload.job_status (record {
      job_id = job.id;
      status = job.status;
      message = job.message;
      result_artifact_uri = job.result_artifact_uri;
      created_at = job.created_at;
      updated_at = job.updated_at;
    }))

abbrev pub wrong_method : Response
wrong_method = write_error 405 "method not allowed"

module _ (now : Time) where
  -- a request for a part of the job, for a caller who may read the job
  unfoldable pub job_subresource :
      Request → String → String → JobRecord → Server → Server × Response
  unfolding list_tasks answer_archive answer_cancel show_job
  job_subresource r job_id sub job s =
      if str_eq sub "stream"
      then (
        s,
        if str_eq r.method "GET"
            then write_json 200 (Payload.event_stream job_id)
            else wrong_method,
      )
      else if str_eq sub "tasks"
      then (s, if str_eq r.method "GET" then list_tasks r job_id s else wrong_method)
      else if str_eq sub "archive"
      then if not (str_eq r.method "POST")
        then (s, wrong_method)
        else with_access s (require_tenant_action s r job.tenant "cancel")
            (λ _. answer_archive s (archive_job now job_id s.engine))
      else if not (is_empty sub)
      then (s, write_error 404 "job subresource not found")
      else if str_eq r.method "GET"
      then (s, show_job job)
      else if str_eq r.method "DELETE"
      then with_access s (require_tenant_action s r job.tenant "cancel")
          (λ _. answer_cancel s (cancel_job now job_id s.engine))
      else (s, wrong_method)

  unfoldable pub job_request : Request → String → String → Server → Server × Response
  unfolding job_subresource
  job_request r job_id sub s = elim (get_job_view job_id s.engine) [
    | none ↦ (s, write_error 404 "job not found")
    | some job ↦
        with_access s (require_tenant_action s r job.tenant "read")
          (λ _. job_subresource r job_id sub job s)
  ]

  unfoldable pub job_path : Request → List String → Server → Server × Response
  unfolding job_request
  job_path r [] s = job_request r "" "" s
  job_path r (job_id ∷ []) s = job_request r job_id "" s
  job_path r (job_id ∷ sub ∷ _) s = job_request r job_id sub s

  unfoldable pub handle_job_by_id : Request → Server → Server × Response
  unfolding job_path
  handle_job_by_id r s =
      let path = trim_prefix r.url_path "/v1/jobs/" in
      if is_empty path
      then (s, write_error 404 "job id is required")
      else job_path r (split "/" path) s
