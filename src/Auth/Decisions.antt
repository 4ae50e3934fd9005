-- ===== src/Auth/Decisions.antt =====
-- What the decisions of internal/api/auth.go come to: who is let in, and who may act in a tenant.
use splai.Base.{
  String, ◌⧺◌, Bool, true, false, some, List, [], ◌∷◌, ◌≡◌, refl, ap, sym, subst, ◌∙◌, ◌≢◌, ◌↔◌,
  ◌⊎◌, inl, inr, arith, eq_iff, is_empty, member, lookup, Bool-cases, Option-cases,
}
use splai.Auth.{
  Principal, Request, Authorizer, Authorization, has_scope, has_any, default_tenant,
  can_tenant_action, action_within, action_beyond, bearer_token, check_scopes, authorize, anonymous,
}

-- a principal that an enabled authorizer knows for the token of a request
abbrev pub Presents : Authorizer → Request → Principal → Type 0
Presents a r p = (bearer_token r ≢ "") × (lookup (bearer_token r) a.tokens ≡ some p)

abbrev pub HoldsAny : Principal → List String → Type 0
HoldsAny p [] = Unit
HoldsAny p (s ∷ ss) = (i : String) × (member i (s ∷ ss) ≡ true) × (has_scope p i ≡ true)

member_here : (s : String) (ss : List String) → member s (s ∷ ss) ≡ true
member_here s ss = ground (arith, eq_iff s s)

has_any-finds :
    (p : Principal) (ss : List String)
    → has_any p ss ≡ true
    → (i : String) × (member i ss ≡ true) × (has_scope p i ≡ true)
has_any-finds p [] h = cc
has_any-finds p (s ∷ ss) h = elim (Bool-cases (has_scope p s)) [
  | inl e ↦ (s, member_here s ss, e)
  | inr e ↦ let (i, m, k) = has_any-finds p ss (ground arith) in (i, ground arith, k)
]

has_any-holds :
    (p : Principal) (ss : List String) (i : String)
    → member i ss ≡ true
    → has_scope p i ≡ true
    → has_any p ss ≡ true
has_any-holds p [] i m k = cc
has_any-holds p (s ∷ ss) i m k = ground (arith, eq_iff i s, has_any-holds p ss i)

check_scopes-grants :
    (p q : Principal) (ss : List String)
    → (check_scopes p ss ≡ (q, 200, "")) ↔ ((p ≡ q) × HoldsAny p ss)
unfolding check_scopes
check_scopes-grants p q [] = (λ e. (ap (λ (v : Authorization). v.0) e, tt), λ h. ground arith)
check_scopes-grants p q (s ∷ ss) = elim (Bool-cases (has_any p (s ∷ ss))) [
  | inl e ↦ (λ h. (ground arith, has_any-finds p (s ∷ ss) e), λ h. ground arith)
  | inr e ↦
      (λ h. absurd (ground arith), λ h. absurd (cc (has_any-holds p (s ∷ ss) h.1.0 h.1.1 h.1.2)))
]

pub is_empty_iff : (s : String) → (is_empty s ≡ false) ↔ (s ≢ "")
unfolding is_empty
is_empty_iff String.[] = (λ e. absurd (cc), λ h. absurd (h refl))
is_empty_iff (String.◌∷◌ c s) = (λ e h. cc, λ h. refl)

authorize_known :
    (a : Authorizer) (r : Request) (required : List String) (q : Principal)
    → a.enabled ≡ true
    → is_empty (bearer_token r) ≡ false
    → lookup (bearer_token r) a.tokens ≡ some q
    → authorize a r required ≡ check_scopes q required
unfolding authorize
authorize_known a r required q on given known = rw (on, authorize) (rw given (rw known))

module _ (a : Authorizer) (r : Request) (required : List String) (q : Principal)
    (on : a.enabled ≡ true) (given : is_empty (bearer_token r) ≡ false)
    (known : lookup (bearer_token r) a.tokens ≡ some q) where
  granted_known :
      (p : Principal) → authorize a r required ≡ (p, 200, "") → Presents a r p × HoldsAny p required
  granted_known p h =
      let (same, holds) =
        (check_scopes-grants q p required).0
          (sym (authorize_known a r required q on given known) ∙ h) in
      subst (λ p. Presents a r p × HoldsAny p required) same
        (((is_empty_iff (bearer_token r)).0 given, known), holds)

  known_granted :
      (p : Principal) → Presents a r p → HoldsAny p required → authorize a r required ≡ (p, 200, "")
  known_granted p presents holds =
      let same : q ≡ p = ground (arith, known, presents) in
      authorize_known a r required q on given known
      ∙ (check_scopes-grants q p required).1
          (same, subst (λ p. HoldsAny p required) (sym same) holds)

-- A request is answered with 200 exactly in two cases: the authorizer is disabled, and the caller
-- counts as anonymous; or the request presents a token that is not empty and that the authorizer
-- knows, the caller is the token's principal, and it has one of the required scopes, if there are
-- any.
pub authorize_iff :
    (a : Authorizer) (r : Request) (required : List String) (p : Principal)
    → (authorize a r required ≡ (p, 200, "")) ↔ (
        ((a.enabled ≡ false) × (p ≡ anonymous))
        ⊎ ((a.enabled ≡ true) × Presents a r p × HoldsAny p required))
unfolding authorize
authorize_iff a r required p = elim (Bool-cases a.enabled) [
  | inr off ↦
      (λ h. inl (off, ground arith), λ h. elim h [ inl c ↦ ground arith | inr c ↦ absurd (cc) ])
  | inl on ↦ elim (Bool-cases (is_empty (bearer_token r))) [
    | inl none_given ↦ (
      λ h. absurd (ground arith),
      λ h. elim h [
        | inl c ↦ absurd (cc)
        | inr c ↦ absurd (cc ((is_empty_iff (bearer_token r)).1 c.1.0))
      ],
    )
    | inr given ↦ elim (Option-cases (lookup (bearer_token r) a.tokens)) [
      | inl unknown ↦
          (λ h. absurd (ground arith), λ h. elim h [ inl c ↦ absurd (cc) | inr c ↦ absurd (cc) ])
      | inr (q, known) ↦ (
        λ h.
            let (presents, holds) = granted_known a r required q on given known p h in
            inr (on, presents, holds),
        λ h. elim h [
          | inl c ↦ absurd (cc)
          | inr c ↦ known_granted a r required q on given known p c.1 c.2
        ],
      )
    ]
  ]
]

-- no scope that reaches beyond a principal's own tenants
abbrev pub IsConfined : Principal → Type 0
IsConfined p =
    (has_scope p "operator" ≡ false)
    × (has_scope p "admin" ≡ false)
    × (has_scope p "tenant:*" ≡ false)

abbrev pub holds_tenant : Principal → String → Bool
holds_tenant p tenant = has_scope p ("tenant:" ⧺ default_tenant tenant)

-- A principal without the scopes operator, admin, tenant:* and without the four scopes on jobs and
-- tasks does nothing in a tenant for which it has no scope.
pub can_tenant_action-isolated :
    (p : Principal) (tenant action : String)
    → IsConfined p
    → has_scope p "job:read" ≡ false
    → has_scope p "job:submit" ≡ false
    → has_scope p "task:report" ≡ false
    → has_scope p "job:cancel" ≡ false
    → can_tenant_action p tenant action ≡ true
    → holds_tenant p tenant ≡ true
unfolding can_tenant_action action_beyond
can_tenant_action-isolated p tenant action c r s t k h = ground (arith, c.0)

-- A principal with the scope job:read reads in every tenant, also in one for which it has no
-- scope.
pub can_tenant_action-crosses :
    (p : Principal) (tenant : String)
    → has_scope p "job:read" ≡ true
    → can_tenant_action p tenant "read" ≡ true
unfolding can_tenant_action action_within action_beyond
can_tenant_action-crosses p tenant h = ground (arith, eq_iff "read" "read")
