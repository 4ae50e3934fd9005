-- ===== src/Policy.antt =====
-- internal/policy/engine.go: quotas for tenants, and rules of which the first that matches decides.
-- Reading the policy file (`LoadFromEnv`) is not modelled: a configuration is a value.
pub mod Rules
pub mod Quotas
use splai.Base.{
  ℕ, String, ◌⧺◌, Bool, true, false, ◌&&◌, ◌||◌, not, Option, none, some, List, [], ◌∷◌, ◌++◌, ltb,
  leb, ◌==◌, if◌then◌else◌, length, map, Map, lookup, insert, str_eq, is_empty, trim_space,
  to_lower, itoa,
}

pub record TenantQuota : Type 0 where
  pub max_running_jobs : ℕ
  pub max_running_tasks : ℕ

pub record RuleMatch : Type 0 where
  pub tenant : String
  pub job_type : String
  pub task_type : String
  pub model : String
  pub data_classification : String
  pub priority : String
  pub network_isolation : String
  pub worker_locality : String
  pub requires_gpu : Option Bool

pub record Rule : Type 0 where
  pub name : String
  pub effect : String
  pub reason : String
  pub match : RuleMatch

pub record Config : Type 0 where
  pub default_action : String
  pub rules : List Rule
  pub tenant_quotas : Map TenantQuota

pub record Decision : Type 0 where
  pub allowed : Bool
  pub reason_code : String
  pub rule : String
  pub message : String

pub record SubmitInput : Type 0 where
  pub tenant : String
  pub job_type : String
  pub priority : String
  pub model : String
  pub data_classification : String
  pub running_jobs : ℕ

pub record AssignmentInput : Type 0 where
  pub tenant : String
  pub task_type : String
  pub model : String
  pub data_classification : String
  pub network_isolation : String
  pub worker_locality : String
  pub worker_gpu : Bool
  pub running_tasks : ℕ

pub record Engine : Type 0 where
  pub default_action : String
  pub rules : List Rule
  pub quotas : Map TenantQuota
  pub noop : Bool

unfoldable pub new_allow_all : Engine
new_allow_all = record { default_action = "allow"; rules = []; quotas = []; noop = true }

unfoldable pub normalize_action : String → String
normalize_action v =
    let a = to_lower (trim_space v) in
    if str_eq a "allow" then "allow" else if str_eq a "deny" then "deny" else ""

pub normalize_rule : Rule → Rule
unfolding normalize_action
normalize_rule r =
    let effect = normalize_action r.effect in
    record r { effect = if is_empty effect then "deny" else effect }

-- the loop over the quotas of the configuration, into the engine's map
copy_quotas : Map TenantQuota → Map TenantQuota → Map TenantQuota
copy_quotas [] quotas = quotas
copy_quotas ((k, v) ∷ m) quotas = copy_quotas m (insert (trim_space k) v quotas)

abbrev no_rules : List Rule → Bool
no_rules [] = true
no_rules (r ∷ rs) = false

abbrev no_quotas : Map TenantQuota → Bool
no_quotas [] = true
no_quotas (q ∷ qs) = false

unfoldable pub new_from_config : Config → Engine
unfolding normalize_rule copy_quotas normalize_action
new_from_config cfg =
    let action = normalize_action cfg.default_action in
    let default_action = if is_empty action then "allow" else action in
    let rules = map normalize_rule cfg.rules in
    let quotas = copy_quotas cfg.tenant_quotas [] in
    record {
      default_action = default_action;
      rules = rules;
      quotas = quotas;
      noop = str_eq default_action "allow" && no_rules rules && no_quotas quotas;
    }

unfoldable pub is_noop : Engine → Bool
is_noop e = e.noop

abbrev pub deref_bool : Option Bool → Bool
deref_bool none = false
deref_bool (some b) = b

abbrev pub bool_eq : Bool → Bool → Bool
bool_eq true b = b
bool_eq false b = not b

-- an empty text in a rule matches everything
abbrev pub field_matches : String → String → Bool
field_matches want have = is_empty want || str_eq want have

abbrev pub gpu_matches : Option Bool → Option Bool → Bool
gpu_matches none have = true
gpu_matches (some want) have = bool_eq want (deref_bool have)

pub matches : RuleMatch → RuleMatch → Bool
matches rule in_ =
    field_matches rule.tenant in_.tenant
    && field_matches rule.job_type in_.job_type
    && field_matches rule.task_type in_.task_type
    && field_matches rule.model in_.model
    && field_matches rule.data_classification in_.data_classification
    && field_matches rule.priority in_.priority
    && field_matches rule.network_isolation in_.network_isolation
    && field_matches rule.worker_locality in_.worker_locality
    && gpu_matches rule.requires_gpu in_.requires_gpu

-- the decision of a rule that matches
pub decide_by : Rule → Decision
decide_by r =
    let reason = if is_empty r.reason then "policy_rule_" ⧺ r.effect else trim_space r.reason in
    record {
      allowed = str_eq r.effect "allow";
      reason_code = reason;
      rule = r.name;
      message = if is_empty r.name then reason else r.name ⧺ (": " ⧺ reason);
    }

pub default_decision : String → Decision
default_decision action =
    if str_eq action "deny"
    then record {
      allowed = false;
      reason_code = "default_deny";
      rule = "default_action";
      message = "request denied by default_action=deny";
    }
    else record {
      allowed = true;
      reason_code = "default_allow";
      rule = "default_action";
      message = "request allowed by default_action=allow";
    }

first_match : List Rule → String → RuleMatch → Decision
unfolding matches decide_by default_decision
first_match [] action input = default_decision action
first_match (r ∷ rs) action input =
    if matches r.match input then decide_by r else first_match rs action input

pub evaluate_rules : Engine → RuleMatch → Decision
unfolding first_match
evaluate_rules e input = first_match e.rules e.default_action input

abbrev pub tenant_or_default : String → String
tenant_or_default t = let tenant = trim_space t in if is_empty tenant then "default" else tenant

-- a positive limit that is reached
abbrev reached : ℕ → ℕ → Bool
reached limit n = ltb 0 limit && leb limit n

pub submit_match : SubmitInput → String → RuleMatch
submit_match in_ tenant = record {
  tenant = tenant;
  job_type = in_.job_type;
  task_type = "";
  model = in_.model;
  data_classification = in_.data_classification;
  priority = in_.priority;
  network_isolation = "";
  worker_locality = "";
  requires_gpu = none;
}

pub assignment_match : AssignmentInput → String → RuleMatch
assignment_match in_ tenant = record {
  tenant = tenant;
  job_type = "";
  task_type = in_.task_type;
  model = in_.model;
  data_classification = in_.data_classification;
  priority = "";
  network_isolation = in_.network_isolation;
  worker_locality = in_.worker_locality;
  requires_gpu = some in_.worker_gpu;
}

quota_decision : String → String → String → String → ℕ → ℕ → Decision
quota_decision code what limit_name tenant n limit = record {
  allowed = false;
  reason_code = code;
  rule = "tenant_quotas." ⧺ tenant;
  message =
      ("running " ⧺ what) ⧺ (" " ⧺ (itoa n ⧺ (" reached " ⧺ (limit_name ⧺ (" " ⧺ itoa limit)))));
}

-- the quota of the tenant, if it is reached
quota_reached : (TenantQuota → ℕ) → Engine → String → ℕ → Option ℕ
quota_reached limit e tenant n = elim (lookup tenant e.quotas) [
  | none ↦ none
  | some q ↦ if reached (limit q) n then some (limit q) else none
]

unfoldable pub evaluate_submit : Engine → SubmitInput → Decision
unfolding quota_reached quota_decision evaluate_rules submit_match
evaluate_submit e in_ =
    let tenant = tenant_or_default in_.tenant in
    elim (quota_reached (λ q. q.max_running_jobs) e tenant in_.running_jobs) [
      | none ↦ evaluate_rules e (submit_match in_ tenant)
      | some limit ↦
          quota_decision "quota_running_jobs_exceeded" "jobs" "max_running_jobs" tenant
            in_.running_jobs limit
    ]

unfoldable pub evaluate_assignment : Engine → AssignmentInput → Decision
unfolding quota_reached quota_decision evaluate_rules assignment_match
evaluate_assignment e in_ =
    let tenant = tenant_or_default in_.tenant in
    elim (quota_reached (λ q. q.max_running_tasks) e tenant in_.running_tasks) [
      | none ↦ evaluate_rules e (assignment_match in_ tenant)
      | some limit ↦
          quota_decision "quota_running_tasks_exceeded" "tasks" "max_running_tasks" tenant
            in_.running_tasks limit
    ]
