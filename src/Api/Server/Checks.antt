-- ===== src/Api/Server/Checks.antt =====
-- The checks that the handlers of internal/api/server.go share let a caller pass or answer with 401
-- or 403.
use splai.Base.{String, ◌≡◌, refl, List, [], ◌∷◌, arith, ◌⊎◌}
use splai.Auth.{Principal, Request, Authorizer, Authorization, authorize, check_scopes}
use splai.Api.Messages.{Response}
use splai.Api.Server.{
  Server, Access, passed, refused, require_scopes, require_tenant_access, require_tenant_action,
  with_access,
}

abbrev pub IsRefusal : Response → Type 0
IsRefusal a = (a.status ≡ 401) ⊎ (a.status ≡ 403)

abbrev pub RefusesWell : Access → Type 0
RefusesWell (passed p) = Unit
RefusesWell (refused a) = IsRefusal a

IsAnswer : Authorization → Type 0
IsAnswer v = (v.1 ≡ 200) ⊎ ((v.1 ≡ 401) ⊎ (v.1 ≡ 403))

authorize-IsAnswer : (a : Authorizer) (r : Request) (ss : List String) → IsAnswer (authorize a r ss)
unfolding authorize check_scopes IsAnswer
authorize-IsAnswer a r [] = ground arith
authorize-IsAnswer a r (s ∷ ss) = ground arith

module _ (s : Server) (r : Request) where
  pub require_scopes-RefusesWell : (ss : List String) → RefusesWell (require_scopes s r ss)
  unfolding require_scopes IsAnswer
  require_scopes-RefusesWell ss = ground (arith, authorize-IsAnswer s.auth r ss)

  pub require_tenant_access-RefusesWell :
      (tenant : String) → RefusesWell (require_tenant_access s r tenant)
  unfolding require_tenant_access IsAnswer
  require_tenant_access-RefusesWell tenant = ground (arith, authorize-IsAnswer s.auth r [])

  pub require_tenant_action-RefusesWell :
      (tenant action : String) → RefusesWell (require_tenant_action s r tenant action)
  unfolding require_tenant_action IsAnswer
  require_tenant_action-RefusesWell tenant action = ground (arith, authorize-IsAnswer s.auth r [])

-- What holds of every refusal and behind every check that is passed holds of a guarded step.
pub with_access_intro {ℓ} :
    (P : Server × Response → Type ℓ) (s : Server) (access : Access)
    {go : Principal → Server × Response}
    → ((a : Response) → access ≡ refused a → P (s, a))
    → ((p : Principal) → access ≡ passed p → P (go p))
    → P (with_access s access go)
with_access_intro P s (refused a) no_ yes_ = no_ a refl
with_access_intro P s (passed p) no_ yes_ = yes_ p refl
