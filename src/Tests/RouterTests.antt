-- ===== src/Tests/RouterTests.antt =====
-- The routing of internal/models/router.go and the registration of workers at concrete inputs.
use splai.Base.{String, ◌≡◌, refl, false, some, List, [], ◌∷◌, is_empty, to_lower, trim_space}
use splai.Router.{RouteInput, Rule, Router, route, skips, decide_with}
use splai.Router.Routes.{Routes}
use splai.Scheduler.Placement.{normalize_backend, sort_texts}
use splai.Scheduler.Workers.{normalize_backends}

abbrev fast : Rule
fast = record {
  name = "fast";
  when_latency_class = "interactive";
  when_reasoning = some false;
  when_classification = "";
  use_backend = "vllm";
  use_model = "";
}

abbrev router : Router
router = record {
  cfg = record { default_backend = "ollama"; default_model = "llama3-8b-q4"; rules = fast ∷ [] };
}

abbrev request : RouteInput
request = record {
  latency_class = "interactive";
  reasoning_required = false;
  data_classification = "internal";
  requested_model = "phi3";
}

routed : route router request ≡ record { backend = "vllm"; model = "phi3"; rule = "fast" }
unfolding route skips is_empty decide_with trim_space
routed = refl

abbrev names : List String
names = "vLLM" ∷ " llamacpp" ∷ "" ∷ "vllm" ∷ []

normalized : normalize_backends names ≡ "llama.cpp" ∷ "vllm" ∷ []
unfolding normalize_backends sort_texts is_empty normalize_backend to_lower trim_space
normalized = refl
