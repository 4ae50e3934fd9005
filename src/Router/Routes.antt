-- ===== src/Router/Routes.antt =====
-- The routing of internal/models/router.go against its meaning.
use splai.Base.{◌≡◌, ◌≢◌, Bool, some, List, [], ◌∷◌}
use splai.Router.{RouteInput, Decision, Rule, Router, decide_with}

-- the rule's conditions hold: each that it states agrees with the request
pub record Applies (rule : Rule) (in_ : RouteInput) : Type 0 where
  pub latency : rule.when_latency_class ≢ "" → rule.when_latency_class ≡ in_.latency_class
  pub reasoning : (b : Bool) → rule.when_reasoning ≡ some b → in_.reasoning_required ≡ b
  pub classification :
      rule.when_classification ≢ "" → rule.when_classification ≡ in_.data_classification

-- the decision of the rules, where `d` is the one of no rule
pub data Routes (in_ : RouteInput) (d : Decision) : List Rule → Decision → Type 0 where
  by_default : Routes in_ d [] d
  passed :
      {rule : Rule} {rules : List Rule} {d' : Decision}
      → ¬ Applies rule in_
      → Routes in_ d rules d'
      → Routes in_ d (rule ∷ rules) d'
  taken :
      {rule : Rule} {rules : List Rule}
      → Applies rule in_
      → Routes in_ d (rule ∷ rules) (decide_with rule d)
