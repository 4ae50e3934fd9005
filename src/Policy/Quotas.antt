-- ===== src/Policy/Quotas.antt =====
-- Quotas, and what an engine built from a configuration lets pass (internal/policy/engine.go).
use splai.Base.{
  ℕ, ◌<◌, String, ◌≡◌, refl, subst, ◌∙◌, ap, Bool, true, ◌&&◌, inl, inr, none, some, List, [], ◌∷◌,
  arith, str_eq, eq_iff, lookup, Option-cases,
}
use splai.Policy.{
  Engine, Rule, RuleMatch, Config, Decision, TenantQuota, SubmitInput, AssignmentInput,
  evaluate_rules, evaluate_submit, evaluate_assignment, new_from_config, quota_reached,
  tenant_or_default, first_match, default_decision, is_noop, submit_match, assignment_match,
  no_rules, no_quotas,
}

-- The tenant is below its quota, if it has a positive one.
abbrev pub IsBelow : (TenantQuota → ℕ) → Engine → String → ℕ → Type 0
IsBelow limit e tenant n =
    (q : TenantQuota) → lookup tenant e.quotas ≡ some q → 0 < limit q → n < limit q

quota_reached-none :
    (limit : TenantQuota → ℕ) (e : Engine) (tenant : String) (n : ℕ)
    → quota_reached limit e tenant n ≡ none
    → IsBelow limit e tenant n
unfolding quota_reached
quota_reached-none limit e tenant n h q p z = ground arith

quota_reached-IsBelow :
    (limit : TenantQuota → ℕ) (e : Engine) (tenant : String) (n : ℕ)
    → IsBelow limit e tenant n
    → quota_reached limit e tenant n ≡ none
unfolding quota_reached
quota_reached-IsBelow limit e tenant n b = elim (Option-cases (lookup tenant e.quotas)) [
  | inl p ↦ ground arith
  | inr (q, p) ↦ ground (arith, b q p)
]

-- A submission passes only from a tenant below its quota of running jobs, whatever the rules say,
-- and below the quota the rules alone decide.
pub evaluate_submit-IsBelow :
    (e : Engine) (in_ : SubmitInput)
    → let tenant = tenant_or_default in_.tenant in
      ((evaluate_submit e in_).allowed ≡ true
        → IsBelow (λ q. q.max_running_jobs) e tenant in_.running_jobs)
      × (IsBelow (λ q. q.max_running_jobs) e tenant in_.running_jobs
          → evaluate_submit e in_ ≡ evaluate_rules e (submit_match in_ tenant))
unfolding evaluate_submit
evaluate_submit-IsBelow e in_ =
    let tenant = tenant_or_default in_.tenant in
    let jobs = λ (q : TenantQuota). q.max_running_jobs in
    (
      (λ h. quota_reached-none jobs e tenant in_.running_jobs (ground arith)),
      (λ b. ground (arith, quota_reached-IsBelow jobs e tenant in_.running_jobs b)),
    )

-- A task is assigned only for a tenant below its quota of running tasks, whatever the rules say,
-- and below the quota the rules alone decide.
pub evaluate_assignment-IsBelow :
    (e : Engine) (in_ : AssignmentInput)
    → let tenant = tenant_or_default in_.tenant in
      ((evaluate_assignment e in_).allowed ≡ true
        → IsBelow (λ q. q.max_running_tasks) e tenant in_.running_tasks)
      × (IsBelow (λ q. q.max_running_tasks) e tenant in_.running_tasks
          → evaluate_assignment e in_ ≡ evaluate_rules e (assignment_match in_ tenant))
unfolding evaluate_assignment
evaluate_assignment-IsBelow e in_ =
    let tenant = tenant_or_default in_.tenant in
    let tasks = λ (q : TenantQuota). q.max_running_tasks in
    (
      (λ h. quota_reached-none tasks e tenant in_.running_tasks (ground arith)),
      (λ b. ground (arith, quota_reached-IsBelow tasks e tenant in_.running_tasks b)),
    )

-- what an engine without rules or quotas, and with the default action `allow`, is made of
record IsOpen (e : Engine) : Type 0 where
  allows : e.default_action ≡ "allow"
  ruleless : e.rules ≡ []
  unlimited : e.quotas ≡ []

no_rules-nil : (rs : List Rule) → no_rules rs ≡ true → rs ≡ []
no_rules-nil [] h = refl
no_rules-nil (r ∷ rs) h = cc

no_quotas-nil : (qs : List (String × TenantQuota)) → no_quotas qs ≡ true → qs ≡ []
no_quotas-nil [] h = refl
no_quotas-nil (q ∷ qs) h = cc

all_three : (a b c : Bool) → (a && b && c) ≡ true → (a ≡ true) × (b ≡ true) × (c ≡ true)
all_three a b c h = ground arith

new_from_config-IsOpen :
    (cfg : Config) → is_noop (new_from_config cfg) ≡ true → IsOpen (new_from_config cfg)
unfolding new_from_config is_noop
new_from_config-IsOpen cfg h =
    let e = new_from_config cfg in
    let (action, rules, quotas) =
      all_three (str_eq e.default_action "allow") (no_rules e.rules) (no_quotas e.quotas) h in
    record {
      allows = (eq_iff e.default_action "allow").0 action;
      ruleless = no_rules-nil e.rules rules;
      unlimited = no_quotas-nil e.quotas quotas;
    }

IsOpen-IsBelow :
    (limit : TenantQuota → ℕ) (e : Engine) (tenant : String) (n : ℕ)
    → IsOpen e
    → IsBelow limit e tenant n
unfolding lookup
IsOpen-IsBelow limit e tenant n o q p z = cc (subst (λ qs. lookup tenant qs ≡ some q) o.unlimited p)

IsOpen-allowed :
    (e : Engine) (input : RuleMatch) → IsOpen e → (evaluate_rules e input).allowed ≡ true
unfolding evaluate_rules
IsOpen-allowed e input o =
    ap (λ rs. (first_match rs e.default_action input).allowed) o.ruleless
    ∙ ap (λ a. (default_decision a).allowed) o.allows

-- The engine skips its policy checks if the policy is `noop`. This loses nothing: a policy that is
-- built from a configuration and says so allows every submission and every assignment.
pub noop-allows :
    (cfg : Config)
    → is_noop (new_from_config cfg) ≡ true
    → ((in_ : SubmitInput) → (evaluate_submit (new_from_config cfg) in_).allowed ≡ true)
      × ((in_ : AssignmentInput) → (evaluate_assignment (new_from_config cfg) in_).allowed ≡ true)
noop-allows cfg h =
    let e = new_from_config cfg in
    let o = new_from_config-IsOpen cfg h in
    (
      (λ in_.
          ap (λ (d : Decision). d.allowed)
            ((evaluate_submit-IsBelow e in_).1 (IsOpen-IsBelow _ e _ in_.running_jobs o))
          ∙ IsOpen-allowed e _ o),
      (λ in_.
          ap (λ (d : Decision). d.allowed)
            ((evaluate_assignment-IsBelow e in_).1 (IsOpen-IsBelow _ e _ in_.running_tasks o))
          ∙ IsOpen-allowed e _ o),
    )
