-- ===== src/Policy/Rules.antt =====
-- Which rule of internal/policy/engine.go decides a request.
use splai.Base.{
  String, ◌≡◌, ◌↔◌, refl, Bool, true, false, ◌&&◌, ◌⊎◌, inl, inr, Option, none, some, List, [], ◌∷◌,
  arith, eq_iff, is_empty, Bool-cases,
}
use splai.Policy.{
  Rule, RuleMatch, Decision, matches, decide_by, default_decision, deref_bool, field_matches,
  gpu_matches,
}

-- Where a list of rules takes a request: the first rule that matches, or none at all.
pub data Decides (input : RuleMatch) : List Rule → Option Rule → Type 0 where
  no_rule : Decides input [] none
  this_rule :
      (r : Rule) (rs : List Rule) → matches r.match input ≡ true → Decides input (r ∷ rs) (some r)
  later_rule :
      (r : Rule) (rs : List Rule) (o : Option Rule)
      → matches r.match input ≡ false
      → Decides input rs o
      → Decides input (r ∷ rs) o

abbrev pub rule_outcome : String → Option Rule → Decision
rule_outcome action none = default_decision action
rule_outcome action (some r) = decide_by r

-- What a rule asks of a request: each text that it names, and the GPU if it says so.
pub record Agrees (rule in_ : RuleMatch) : Type 0 where
  pub tenant : (rule.tenant ≡ "") ⊎ (rule.tenant ≡ in_.tenant)
  pub job_type : (rule.job_type ≡ "") ⊎ (rule.job_type ≡ in_.job_type)
  pub task_type : (rule.task_type ≡ "") ⊎ (rule.task_type ≡ in_.task_type)
  pub model : (rule.model ≡ "") ⊎ (rule.model ≡ in_.model)
  pub data_classification :
      (rule.data_classification ≡ "") ⊎ (rule.data_classification ≡ in_.data_classification)
  pub priority : (rule.priority ≡ "") ⊎ (rule.priority ≡ in_.priority)
  pub network_isolation :
      (rule.network_isolation ≡ "") ⊎ (rule.network_isolation ≡ in_.network_isolation)
  pub worker_locality : (rule.worker_locality ≡ "") ⊎ (rule.worker_locality ≡ in_.worker_locality)
  pub requires_gpu :
      (rule.requires_gpu ≡ none) ⊎ (rule.requires_gpu ≡ some (deref_bool in_.requires_gpu))

pub is_empty-eq : (s : String) → is_empty s ≡ true → s ≡ ""
unfolding is_empty
is_empty-eq String.[] h = refl
is_empty-eq (String.◌∷◌ c s) h = cc

pub is_empty-nil : is_empty "" ≡ true
unfolding is_empty
is_empty-nil = refl

field_agrees :
    (want have : String) → (field_matches want have ≡ true) ↔ ((want ≡ "") ⊎ (want ≡ have))
field_agrees want have = (
  (λ h. elim (Bool-cases (is_empty want)) [
    | inl e ↦ inl (is_empty-eq want e)
    | inr f ↦ inr (ground (arith, eq_iff want have))
  ]),
  (λ h. ground (arith, eq_iff want have, is_empty-nil)),
)

gpu_agrees :
    (want have : Option Bool)
    → (gpu_matches want have ≡ true) ↔ ((want ≡ none) ⊎ (want ≡ some (deref_bool have)))
gpu_agrees want have = ((λ h. ground arith), (λ h. ground arith))

all_nine :
    (a b c d e f g h i : Bool)
    → ((a && b && c && d && e && f && g && h && i) ≡ true) ↔ (
        (a ≡ true)
        × (b ≡ true)
        × (c ≡ true)
        × (d ≡ true)
        × (e ≡ true)
        × (f ≡ true)
        × (g ≡ true)
        × (h ≡ true)
        × (i ≡ true))
all_nine a b c d e f g h i = ((λ p. ground arith), (λ p. ground arith))

-- A rule matches a request exactly if they agree on every text that the rule names, and on the GPU
-- if the rule speaks of it.
pub matches-Agrees : (rule in_ : RuleMatch) → (matches rule in_ ≡ true) ↔ Agrees rule in_
unfolding matches
matches-Agrees rule in_ =
    let tests =
      all_nine (field_matches rule.tenant in_.tenant) (field_matches rule.job_type in_.job_type)
        (field_matches rule.task_type in_.task_type) (field_matches rule.model in_.model)
        (field_matches rule.data_classification in_.data_classification)
        (field_matches rule.priority in_.priority)
        (field_matches rule.network_isolation in_.network_isolation)
        (field_matches rule.worker_locality in_.worker_locality)
        (gpu_matches rule.requires_gpu in_.requires_gpu) in
    (
      (λ h.
          let t = tests.0 h in
          record {
            tenant = (field_agrees _ _).0 t.0;
            job_type = (field_agrees _ _).0 t.1;
            task_type = (field_agrees _ _).0 t.2;
            model = (field_agrees _ _).0 t.3;
            data_classification = (field_agrees _ _).0 t.4;
            priority = (field_agrees _ _).0 t.5;
            network_isolation = (field_agrees _ _).0 t.6;
            worker_locality = (field_agrees _ _).0 t.7;
            requires_gpu = (gpu_agrees _ _).0 t.8;
          }),
      (λ a. tests.1 (
        (field_agrees _ _).1 a.tenant,
        (field_agrees _ _).1 a.job_type,
        (field_agrees _ _).1 a.task_type,
        (field_agrees _ _).1 a.model,
        (field_agrees _ _).1 a.data_classification,
        (field_agrees _ _).1 a.priority,
        (field_agrees _ _).1 a.network_isolation,
        (field_agrees _ _).1 a.worker_locality,
        (gpu_agrees _ _).1 a.requires_gpu,
      )),
    )
