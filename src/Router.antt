-- ===== src/Router.antt =====
-- internal/models/router.go: which backend and which model a request goes to. Reading the routing
-- file (`LoadFromEnv`) is not modelled but for the defaults that it fills in.
pub mod Routes
use splai.Base.{
  ℕ, String, Bool, true, false, ◌&&◌, ◌||◌, not, Option, none, some, List, [], ◌∷◌, if◌then◌else◌,
  str_eq, is_empty, trim_space,
}

pub record RouteInput : Type 0 where
  pub latency_class : String
  pub reasoning_required : Bool
  pub data_classification : String
  pub requested_model : String

pub record Decision : Type 0 where
  pub backend : String
  pub model : String
  pub rule : String

pub record Rule : Type 0 where
  pub name : String
  pub when_latency_class : String
  pub when_reasoning : Option Bool
  pub when_classification : String
  pub use_backend : String
  pub use_model : String

pub record Config : Type 0 where
  pub default_backend : String
  pub default_model : String
  pub rules : List Rule

pub record Router : Type 0 where
  pub cfg : Config

abbrev pub new_default_router : Router
new_default_router = record {
  cfg = record { default_backend = "ollama"; default_model = "llama3-8b-q4"; rules = [] };
}

-- what `LoadFromEnv` makes of a parsed file
unfoldable pub router_of : Config → Router
router_of cfg = record {
  cfg = record cfg {
    default_backend =
        if is_empty (trim_space cfg.default_backend) then "ollama" else cfg.default_backend;
    default_model =
        if is_empty (trim_space cfg.default_model) then "llama3-8b-q4" else cfg.default_model;
  };
}

abbrev pub reasoning_differs : Option Bool → Bool → Bool
reasoning_differs none b = false
reasoning_differs (some true) b = not b
reasoning_differs (some false) b = b

-- one of the rule's conditions fails
unfoldable pub skips : Rule → RouteInput → Bool
skips rule in_ =
    (not (is_empty rule.when_latency_class)
      && not (str_eq rule.when_latency_class in_.latency_class))
    || reasoning_differs rule.when_reasoning in_.reasoning_required
    || (not (is_empty rule.when_classification)
        && not (str_eq rule.when_classification in_.data_classification))

abbrev trimmed_or : String → String → String
trimmed_or text default = if is_empty (trim_space text) then default else trim_space text

-- the decision of a rule that applies
unfoldable pub decide_with : Rule → Decision → Decision
decide_with rule d = record {
  backend = trimmed_or rule.use_backend d.backend;
  model = trimmed_or rule.use_model d.model;
  rule = trimmed_or rule.name "rule";
}

unfoldable pub route_loop : List Rule → RouteInput → Decision → Decision
route_loop [] in_ d = d
route_loop (rule ∷ rules) in_ d =
    let rest = route_loop rules in_ d in if skips rule in_ then rest else decide_with rule d

abbrev pub default_route : Config → RouteInput → Decision
default_route cfg in_ = record {
  backend = cfg.default_backend;
  model = if is_empty in_.requested_model then cfg.default_model else in_.requested_model;
  rule = "default";
}

unfoldable pub route : Router → RouteInput → Decision
unfolding route_loop
route r in_ = route_loop r.cfg.rules in_ (default_route r.cfg in_)
