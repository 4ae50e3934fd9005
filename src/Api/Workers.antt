-- ===== src/Api/Workers.antt =====
-- The handlers of internal/api/server.go that workers call: registration, heartbeats, polls and
-- reports. Only the last of them asks who calls.
use splai.Base.{
  ℕ, String, true, not, Option, none, some, List, ◌∷◌, if◌then◌else◌, str_eq, is_empty, trim_prefix,
  split, atoi, positive, Result, ok, err,
}
use splai.State.{Time, completed}
use splai.Store.{AuditPayload, Load, any_status}
use splai.Scheduler.Engine.{Engine}
use splai.Scheduler.Placement.{Scores}
use splai.Scheduler.Assign.{Assignment}
use splai.Scheduler.Leases.{heartbeat}
use splai.Scheduler.Poll.{poll_assignments}
use splai.Scheduler.Report.{ReportTaskResultRequest, report_task_result}
use splai.Scheduler.Workers.{RegisterWorkerRequest, register_worker, get_job_view}
use splai.Auth.{Request, query_get}
use splai.Api.Messages.{Payload, Response, write_json, write_error}
use splai.Api.Server.{Server, require_tenant_action, with_access}
use splai.Api.Listing.{wrong_method}

unfoldable pub handle_register_worker :
    Time → Request → Option RegisterWorkerRequest → Server → Server × Response
handle_register_worker now r body s =
    if not (str_eq r.method "POST") then (s, wrong_method) else elim body [
      | none ↦ (s, write_error 400 "invalid request body")
      | some req ↦
          if is_empty req.worker_id then (s, write_error 400 "worker_id is required") else (
            record s { engine = register_worker now req s.engine },
            write_json 200
                (Payload.registered (record { accepted = true; heartbeat_interval_seconds = 5 })),
          )
    ]

unfoldable pub answer_beat : Server → Engine × Result (Unit {0}) → Server × Response
answer_beat s (e, err message) = (record s { engine = e }, write_error 404 message)
answer_beat s (e, ok _) =
    (record s { engine = e }, write_json 200 (Payload.beat (record { accepted = true })))

unfoldable pub answer_poll : Server → Engine × Result (List Assignment) → Server × Response
answer_poll s (e, err message) = (record s { engine = e }, write_error 404 message)
answer_poll s (e, ok given) =
    (record s { engine = e }, write_json 200 (Payload.polled (record { assignments = given })))

unfoldable pub answer_report : Server → Engine × Result (Unit {0}) → Server × Response
answer_report s (e, err message) = (record s { engine = e }, write_error 400 message)
answer_report s (e, ok _) =
    (record s { engine = e }, write_json 200 (Payload.report_result (record { accepted = true })))

-- how many tasks a poll asks for
unfoldable pub max_tasks : Request → ℕ
max_tasks r = elim (positive (atoi (query_get r "max_tasks"))) [ none ↦ 1 | some v ↦ v ]

module _ (digest : AuditPayload → String) (scores : Scores) (now : Time) where
  unfoldable pub worker_heartbeat : Request → String → Option Load → Server → Server × Response
  unfolding answer_beat
  worker_heartbeat r worker_id body s =
      if not (str_eq r.method "POST") then (s, wrong_method) else elim body [
        | none ↦ (s, write_error 400 "invalid request body")
        | some load ↦
            let load' = if is_empty load.health then record load { health = "healthy" } else load in
            answer_beat s (heartbeat now worker_id load' s.engine)
      ]

  unfoldable pub worker_assignments : Request → String → Server → Server × Response
  unfolding answer_poll max_tasks
  worker_assignments r worker_id s =
      if not (str_eq r.method "GET")
      then (s, wrong_method)
      else answer_poll s (poll_assignments digest scores now worker_id (max_tasks r) s.engine)

  unfoldable pub worker_path : Request → List String → Option Load → Server → Server × Response
  unfolding worker_heartbeat worker_assignments
  worker_path r (worker_id ∷ sub ∷ _) body s =
      if str_eq sub "heartbeat"
      then worker_heartbeat r worker_id body s
      else if str_eq sub "assignments"
      then worker_assignments r worker_id s
      else (s, write_error 404 "worker subresource not found")
  worker_path r _ body s = (s, write_error 404 "worker subresource not found")

  unfoldable pub handle_worker_subresource : Request → Option Load → Server → Server × Response
  unfolding worker_path
  handle_worker_subresource r body s =
      worker_path r (split "/" (trim_prefix r.url_path "/v1/workers/")) body s

unfoldable pub handle_task_report :
    Time → Request → Option ReportTaskResultRequest → Server → Server × Response
unfolding answer_report
handle_task_report now r body s =
    if not (str_eq r.method "POST") then (s, wrong_method) else elim body [
      | none ↦ (s, write_error 400 "invalid request body")
      | some raw ↦
          let req = if any_status raw.status then record raw { status = completed } else raw in
          elim (get_job_view req.job_id s.engine) [
            | none ↦ (s, write_error 404 "job not found")
            | some job ↦
                with_access s (require_tenant_action s r job.tenant "report")
                  (λ _. answer_report s (report_task_result now req s.engine))
          ]
    ]
