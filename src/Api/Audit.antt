-- ===== src/Api/Audit.antt =====
-- `handleAuditEvents` of internal/api/server.go: the audit log for operators. The parsing of an
-- instant by time.RFC3339 and its printing are parameters.
use splai.Base.{
  ℕ, String, Option, none, some, List, [], ◌∷◌, if◌then◌else◌, str_eq, is_empty, trim_space,
  equal_fold, itoa, atoi, positive, non_negative, length, map,
}
use splai.State.{Time, AuditEventRecord, AuditQuery}
use splai.Scheduler.Workers.{list_events}
use splai.Auth.{Request, query_get}
use splai.Api.Messages.{AuditEvent, Payload, Response, write_json, write_error}
use splai.Api.Server.{Server, require_scopes, with_access}
use splai.Api.Listing.{wrong_method}

unfoldable pub audit_event : AuditEventRecord → AuditEvent
audit_event e = record {
  id = e.id;
  action = e.action;
  actor = e.actor;
  tenant = e.tenant;
  remote_addr = e.remote_addr;
  resource = e.resource;
  payload_hash = e.payload_hash;
  prev_hash = e.prev_hash;
  event_hash = e.event_hash;
  requested = e.requested;
  result = e.result;
  details = e.details;
  created_at = e.created_at;
}

-- a parameter that is a number that passes a test, `fallback` where it is not given
unfoldable pub checked_number : Request → String → ℕ → (String → Option ℕ) → Option ℕ
checked_number r key fallback read =
    let raw = trim_space (query_get r key) in if is_empty raw then some fallback else read raw

-- an empty text stands for the zero time
unfoldable pub parse_time : (String → Option Time) → String → Option Time
parse_time parse_rfc3339 raw =
    let t = trim_space raw in if is_empty t then some 0 else parse_rfc3339 t

unfoldable pub parse_time_range : (String → Option Time) → String → String → Option (Time × Time)
unfolding parse_time
parse_time_range parse_rfc3339 from_raw to_raw = elim (parse_time parse_rfc3339 from_raw) [
  | none ↦ none
  | some start ↦ elim (parse_time parse_rfc3339 to_raw) [
    | none ↦ none
    | some end ↦ some (start, end)
  ]
]

unfoldable pub csv_line : (Time → String) → AuditEventRecord → List String
csv_line format e =
    itoa e.id
    ∷ format e.created_at
    ∷ e.action
    ∷ e.actor
    ∷ e.tenant
    ∷ e.remote_addr
    ∷ e.resource
    ∷ e.payload_hash
    ∷ e.prev_hash
    ∷ e.event_hash
    ∷ itoa e.requested
    ∷ e.result
    ∷ e.details
    ∷ []

abbrev pub csv_header : List String
csv_header =
    "id" ∷ "created_at" ∷ "action" ∷ "actor" ∷ "tenant" ∷ "remote_addr" ∷ "resource"
    ∷ "payload_hash" ∷ "prev_hash" ∷ "event_hash" ∷ "requested" ∷ "result" ∷ "details" ∷ []

unfoldable pub show_events : (Time → String) → String → ℕ → ℕ → List AuditEventRecord → Response
unfolding csv_line audit_event
show_events format kind limit offset events =
    if equal_fold kind "csv"
    then write_json 200 (Payload.audit_csv (csv_header ∷ map (csv_line format) events))
    else write_json 200 (
        Payload.audit_events (record {
          returned = length events;
          limit = limit;
          offset = offset;
          events = map audit_event events;
        }))

abbrev pub query_of : Request → ℕ → ℕ → Time → Time → AuditQuery
query_of r limit offset start end = record {
  limit = limit;
  offset = offset;
  action = trim_space (query_get r "action");
  actor = trim_space (query_get r "actor");
  tenant = trim_space (query_get r "tenant");
  result = trim_space (query_get r "result");
  from = start;
  to = end;
}

module _ (parse_rfc3339 : String → Option Time) (format : Time → String) where
  unfoldable pub audit_page : Request → Server → Time → Time → Response
  unfolding checked_number show_events
  audit_page r s start end = elim (checked_number r "limit" 50 (λ raw. positive (atoi raw))) [
    | none ↦ write_error 400 "limit must be a positive integer"
    | some limit ↦ elim (checked_number r "offset" 0 (λ raw. non_negative (atoi raw))) [
      | none ↦ write_error 400 "offset must be a non-negative integer"
      | some offset ↦
          show_events format (trim_space (query_get r "format")) limit offset
            (list_events (query_of r limit offset start end) s.engine)
    ]
  ]

  unfoldable pub audit_answer : Request → Server → Response
  unfolding parse_time_range audit_page
  audit_answer r s = elim (parse_time_range parse_rfc3339 (query_get r "from") (query_get r "to")) [
    | none ↦ write_error 400 "time filters must be RFC3339"
    | some (start, end) ↦ audit_page r s start end
  ]

  unfoldable pub handle_audit_events : Request → Server → Server × Response
  unfolding audit_answer
  handle_audit_events r s =
      with_access s (require_scopes s r ("operator" ∷ []))
        (λ _. (s, if str_eq r.method "GET" then audit_answer r s else wrong_method))
