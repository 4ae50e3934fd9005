-- ===== src/Api/Server.antt =====
-- The server's state in internal/api/server.go, how `NewServer` builds it, and the checks that
-- its handlers share. A request is handled at one instant.
pub mod Checks
use splai.Base.{
  ℕ, ◌+◌, ◌-◌, ◌*◌, ◌/◌, ◌%◌, ◌^◌, String, ◌⧺◌, Bool, true, false, Option, none, some,
  if◌then◌else◌, ◌==◌, ltb, List, [], not, str_eq, is_empty, trim_space, to_lower, itoa, atoi,
  positive, ◌||◌,
}
use splai.State.{Time, second, unix_epoch, AuditEventRecord}
use splai.Store.{AuditPayload}
use splai.Planner.{Compiler}
use splai.Router.{Router}
use splai.Limits.{AdminSafety, SubmitLimiter}
use splai.Scheduler.Engine.{Engine}
use splai.Scheduler.Workers.{append_event}
use splai.Auth.{
  Principal, Request, Authorizer, header_get, authorize, can_access_tenant, can_tenant_action,
}
use splai.Api.Messages.{Response, write_error}

pub record Server : Type 0 where
  pub planner : Compiler
  pub engine : Engine
  pub auth : Authorizer
  pub safety : AdminSafety
  pub limiter : Option SubmitLimiter
  pub router : Router
  pub compat : Bool
  pub timeout : ℕ
  pub artifact_root : String
  pub seq : ℕ

unfoldable pub parse_env_bool : String → Bool → Bool
parse_env_bool raw fallback =
    let v = trim_space raw in
    let w = to_lower v in
    if is_empty v
    then fallback
    else if str_eq w "1" || str_eq w "true" || str_eq w "yes"
    then true
    else if str_eq w "0" || str_eq w "false" || str_eq w "no"
    then false
    else fallback

-- A duration is an `int64`: the product with a second wraps around. One that comes out negative is
-- over at once, as one of 0 is.
unfoldable pub compat_timeout : String → ℕ
compat_timeout raw = elim (positive (atoi (trim_space raw))) [
  | none ↦ 60 * second
  | some v ↦ let t = v * second % 2 ^ 64 in if ltb t (2 ^ 63) then t else 0
]

-- `NewServer`, with the environment and with the parts that it reads from there
unfoldable pub new_server :
    (String → String)
    → Router
    → Authorizer
    → AdminSafety
    → Option SubmitLimiter
    → Compiler
    → Engine
    → Server
unfolding parse_env_bool compat_timeout
new_server getenv router auth safety limiter p e =
    let artifact_root = trim_space (getenv "SPLAI_ARTIFACT_ROOT") in
    record {
      planner = p;
      engine = e;
      auth = auth;
      safety = safety;
      limiter = limiter;
      router = router;
      compat = parse_env_bool (getenv "SPLAI_OPENAI_COMPAT") false;
      timeout = compat_timeout (getenv "SPLAI_OPENAI_COMPAT_TIMEOUT_SECONDS");
      artifact_root = if is_empty artifact_root then "/tmp/splai-artifacts" else artifact_root;
      seq = 0;
    }

-- atomic.AddUint64(&s.seq, 1)
abbrev pub next_seq : ℕ → ℕ
next_seq n = (n + 1) % 2 ^ 64

abbrev pub job_name : ℕ → String
job_name n = "job-" ⧺ itoa n

-- time.Time.Unix, of an instant from 1970 on
abbrev pub unix : Time → ℕ
unix now = (now - unix_epoch) / second

unfoldable pub tenant_from_request : Request → String → String
tenant_from_request r req_tenant =
    let t = trim_space req_tenant in
    let u = if is_empty t then trim_space (header_get r "X-Splai-Tenant") else t in
    if is_empty u then "default" else u

-- who a request comes from, or the answer that refuses it
pub data Access : Type 0 where
  passed : Principal → Access
  refused : Response → Access

unfoldable pub require_scopes : Server → Request → List String → Access
require_scopes s r scopes =
    let (p, code, msg) = authorize s.auth r scopes in
    if code == 200 then passed p else refused (write_error code msg)

unfoldable pub require_tenant_access : Server → Request → String → Access
require_tenant_access s r tenant =
    let (p, code, msg) = authorize s.auth r [] in
    if not (code == 200)
    then refused (write_error code msg)
    else if not s.auth.enabled
    then passed p
    else if not (can_access_tenant p tenant)
    then refused (write_error 403 "tenant access denied")
    else passed p

unfoldable pub require_tenant_action : Server → Request → String → String → Access
require_tenant_action s r tenant action =
    let (p, code, msg) = authorize s.auth r [] in
    if not (code == 200)
    then refused (write_error code msg)
    else if not s.auth.enabled
    then passed p
    else if not (can_tenant_action p tenant action)
    then refused (write_error 403 "tenant action denied")
    else passed p

-- a handler's step that a refused request does not reach
abbrev pub with_access : Server → Access → (Principal → Server × Response) → Server × Response
with_access s (passed p) go = go p
with_access s (refused answer) go = (s, answer)

abbrev pub append_audit : (AuditPayload → String) → Time → AuditEventRecord → Server → Server
append_audit digest now event s = record s { engine = append_event digest now event s.engine }
