-- ===== src/Tests/PolicyTests.antt =====
-- internal/policy/engine.go on small policies.
use splai.Base.{false, none, [], ◌∷◌}
use splai.Policy.{Engine, Rule, RuleMatch, Config, SubmitInput, AssignmentInput}

abbrev anything : RuleMatch
anything = record {
  tenant = "";
  job_type = "";
  task_type = "";
  model = "";
  data_classification = "";
  priority = "";
  network_isolation = "";
  worker_locality = "";
  requires_gpu = none;
}

abbrev no_secrets : Rule
no_secrets = record {
  name = "no-secrets";
  effect = "deny";
  reason = "";
  match = record anything { data_classification = "secret" };
}

abbrev policy : Engine
policy = record {
  default_action = "allow";
  rules = no_secrets ∷ [];
  quotas = ("default", record { max_running_jobs = 3; max_running_tasks = 5 }) ∷ [];
  noop = false;
}

abbrev submission : SubmitInput
submission = record {
  tenant = "";
  job_type = "chat";
  priority = "";
  model = "";
  data_classification = "secret";
  running_jobs = 1;
}

abbrev assignment : AssignmentInput
assignment = record {
  tenant = " default ";
  task_type = "llm_inference";
  model = "";
  data_classification = "";
  network_isolation = "";
  worker_locality = "";
  worker_gpu = false;
  running_tasks = 5;
}

abbrev empty_config : Config
empty_config = record { default_action = " Allow"; rules = []; tenant_quotas = [] }
