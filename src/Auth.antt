-- ===== src/Auth.antt =====
-- The authentication of internal/api/auth.go: principals with their scopes, and the authorizer.
-- A set of scopes is the list of its members. A request is what the handlers read of it.
pub mod Tokens
pub mod Parsing
pub mod Decisions
pub mod Grants
use Prim.Native.Nat.{zero, suc, ◌/◌, ◌%◌}
use splai.Base.{
  ℕ, String, ◌⧺◌, Bool, true, false, ◌&&◌, ◌||◌, not, Option, none, some, List, [], ◌∷◌,
  if◌then◌else◌, str_eq, is_empty, trim_space, to_lower, has_prefix, drop_text, member, join, nth,
  bytes, fnv32a, Map, lookup, lookup_or,
}

pub record Principal : Type 0 where
  pub id : String
  pub scopes : List String

abbrev pub nobody : Principal
nobody = record { id = ""; scopes = [] }

abbrev pub anonymous : Principal
anonymous = record { id = "anonymous"; scopes = [] }

abbrev pub has_scope : Principal → String → Bool
has_scope p scope = member scope p.scopes

abbrev pub default_tenant : String → String
default_tenant tenant = if is_empty tenant then "default" else tenant

unfoldable pub can_access_tenant : Principal → String → Bool
can_access_tenant p tenant =
    let t = default_tenant tenant in
    if has_scope p "operator"
    then true
    else if has_scope p "tenant:*"
    then true
    else has_scope p ("tenant:" ⧺ t)

-- what a principal may do in a tenant for which it has the scope
unfoldable pub action_within : Principal → String → Bool
action_within p action =
    if has_scope p "role:tenant-reader"
    then str_eq action "read"
    else if has_scope p "role:tenant-runner"
    then str_eq action "read" || str_eq action "submit" || str_eq action "report"
    else if not (has_scope p "job:read")
        && not (has_scope p "job:submit")
        && not (has_scope p "task:report")
        && not (has_scope p "job:cancel")
    then str_eq action "read"
      || str_eq action "submit"
      || str_eq action "report"
      || str_eq action "cancel"
    else if str_eq action "read"
    then true
    else if str_eq action "submit" || str_eq action "report"
    then has_scope p "job:submit"
      || has_scope p "task:report"
      || has_scope p "job:read"
      || has_scope p "job:cancel"
    else if str_eq action "cancel"
    then has_scope p "job:cancel" || has_scope p "job:submit"
    else true

-- what a principal may do in a tenant for which it has no scope
unfoldable pub action_beyond : Principal → String → Bool
action_beyond p action =
    if str_eq action "read"
    then has_scope p "job:read"
    else if str_eq action "submit"
    then has_scope p "job:submit"
    else if str_eq action "report"
    then has_scope p "task:report"
    else if str_eq action "cancel"
    then has_scope p "job:cancel"
    else false

unfoldable pub can_tenant_action : Principal → String → String → Bool
can_tenant_action p tenant action =
    if has_scope p "operator" || has_scope p "admin"
    then true
    else if has_scope p "tenant:*"
    then true
    else if has_scope p ("tenant:" ⧺ default_tenant tenant)
    then action_within p action
    else action_beyond p action

-- What a handler reads of an HTTP request. Its header and its query are maps under the names in
-- the form in which `net/http` keeps them, with the first value of each.
pub record Request : Type 0 where
  pub method : String
  pub url_path : String
  pub query : Map String
  pub header : Map String
  pub remote_addr : String

abbrev pub header_get : Request → String → String
header_get r key = lookup_or "" key r.header

abbrev pub query_get : Request → String → String
query_get r key = lookup_or "" key r.query

unfoldable pub bearer_token : Request → String
bearer_token r =
    let auth = trim_space (header_get r "Authorization") in
    if has_prefix (to_lower auth) "bearer "
    then trim_space (drop_text 7 auth)
    else trim_space (header_get r "X-Splai-Token")

-- the lowest hexadecimal digits of a number, before `acc`
hex_digits : ℕ → ℕ → String → String
hex_digits zero n acc = acc
hex_digits (suc k) n acc = hex_digits k (n / 16) (String.◌∷◌ (nth "0123456789abcdef" (n % 16)) acc)

unfoldable pub token_id : String → String
unfolding hex_digits
token_id token = "tok-" ⧺ hex_digits 8 (fnv32a (bytes token) 2166136261) ""

pub record Authorizer : Type 0 where
  pub enabled : Bool
  pub tokens : Map Principal

abbrev has_any : Principal → List String → Bool
has_any p [] = false
has_any p (scope ∷ scopes) = has_scope p scope || has_any p scopes

-- the principal, the status and the message of an answer
abbrev pub Authorization : Type 0
Authorization = Principal × ℕ × String

unfoldable pub check_scopes : Principal → List String → Authorization
check_scopes p [] = (p, 200, "")
check_scopes p (scope ∷ scopes) =
    if has_any p (scope ∷ scopes)
    then (p, 200, "")
    else (p, 403, "missing required scope (one of: " ⧺ (join "," (scope ∷ scopes) ⧺ ")"))

unfoldable pub authorize : Authorizer → Request → List String → Authorization
unfolding check_scopes
authorize a r required =
    if not a.enabled
    then (anonymous, 200, "")
    else if is_empty (bearer_token r)
    then (nobody, 401, "missing bearer token")
    else elim (lookup (bearer_token r) a.tokens) [
      | none ↦ (nobody, 401, "invalid token")
      | some p ↦ check_scopes p required
    ]
