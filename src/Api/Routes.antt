-- ===== src/Api/Routes.antt =====
-- The routes of `Handler` in internal/api/server.go, with the handlers that only report. Of the paths
-- that end in a slash the longest one that fits counts, as in net/http.
use splai.Base.{
  String, Bool, not, ◌&&◌, Option, none, some, [], ◌∷◌, if◌then◌else◌, str_eq, has_prefix,
}
use splai.Auth.{Request}
use splai.Api.Messages.{Payload, Response, write_json}
use splai.Api.Server.{Server, require_scopes, with_access}
use splai.Api.Listing.{wrong_method}

pub data Endpoint : Type 0 where
  health metrics metrics_prometheus jobs job_by_id register_worker worker_subresource : Endpoint
  task_report dead_letter_queue audit_events model_prefetch chat_completions responses : Endpoint

unfoldable pub endpoint_of : Bool → String → Option Endpoint
endpoint_of compat path =
    if str_eq path "/healthz"
    then some Endpoint.health
    else if str_eq path "/v1/metrics"
    then some Endpoint.metrics
    else if str_eq path "/v1/metrics/prometheus"
    then some Endpoint.metrics_prometheus
    else if str_eq path "/v1/jobs"
    then some Endpoint.jobs
    else if has_prefix path "/v1/jobs/"
    then some Endpoint.job_by_id
    else if str_eq path "/v1/workers/register"
    then some Endpoint.register_worker
    else if has_prefix path "/v1/workers/"
    then some Endpoint.worker_subresource
    else if str_eq path "/v1/tasks/report"
    then some Endpoint.task_report
    else if str_eq path "/v1/admin/queue/dead-letter"
    then some Endpoint.dead_letter_queue
    else if str_eq path "/v1/admin/audit"
    then some Endpoint.audit_events
    else if str_eq path "/v1/admin/models/prefetch"
    then some Endpoint.model_prefetch
    else if compat && str_eq path "/v1/chat/completions"
    then some Endpoint.chat_completions
    else if compat && str_eq path "/v1/responses"
    then some Endpoint.responses
    else none

abbrev pub handle_health : Response
handle_health = write_json 200 Payload.healthy

unfoldable pub handle_metrics : Request → Server → Server × Response
handle_metrics r s =
    if not (str_eq r.method "GET")
    then (s, wrong_method)
    else with_access s (require_scopes s r ("metrics" ∷ "operator" ∷ []))
        (λ _. (s, write_json 200 Payload.metrics_snapshot))

unfoldable pub handle_metrics_prometheus : Request → Server → Server × Response
handle_metrics_prometheus r s =
    if not (str_eq r.method "GET")
    then (s, wrong_method)
    else with_access s (require_scopes s r ("metrics" ∷ "operator" ∷ []))
        (λ _. (s, write_json 200 Payload.prometheus_text))
