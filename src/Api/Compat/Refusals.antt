-- ===== src/Api/Compat/Refusals.antt =====
-- How the OpenAI-compatible handlers of internal/api/server.go refuse a caller.
use splai.Base.{
  ℕ, String, ◌≡◌, refl, true, false, not, Option, some, [], arith, str_eq, is_empty, lookup,
  contains, to_lower, if_intro, option_intro,
}
use splai.State.{Time}
use splai.Store.{AuditPayload}
use splai.Auth.{Request, Authorizer, Authorization, bearer_token, authorize, check_scopes}
use splai.Api.Messages.{write_error}
use splai.Api.Server.{Server}
use splai.Api.Artifacts.{Artifact}
use splai.Api.Compat.{
  ChatRequest, build_chat_prompt, run_openai_compat_job, answer_run, http_status_for_compat_err,
  handle_openai_chat_completions,
}

abbrev Hidden : Authorization → Type 0
Hidden v = v.1 ≡ 401 → http_status_for_compat_err v.2 ≡ 500

no_token-status : http_status_for_compat_err "missing bearer token" ≡ 500
unfolding http_status_for_compat_err contains to_lower
no_token-status = refl

bad_token-status : http_status_for_compat_err "invalid token" ≡ 500
unfolding http_status_for_compat_err contains to_lower
bad_token-status = refl

-- the status that the message of a refused token gets
refusal-status : (a : Authorizer) (r : Request) → Hidden (authorize a r [])
unfolding authorize check_scopes
refusal-status a r =
    if_intro Hidden (not a.enabled) (λ off e. absurd (omega (arith, e)))
      λ on.
        if_intro Hidden (is_empty (bearer_token r)) (λ missing e. no_token-status)
          λ given.
            option_intro Hidden (lookup (bearer_token r) a.tokens) (λ unknown e. bad_token-status)
              λ p known e. absurd (omega (arith, e))

-- A chat request with a prompt whose token is missing or unknown to an enabled authorizer is answered
-- with 500, although the authorizer's own verdict is 401; and the server stays as it is.
pub handle_openai_chat_completions-hides :
    (read : String → Option Artifact) (digest : AuditPayload → String) (now : Time) (fuel : ℕ)
    (look : ℕ → Time × Server) (done : Time) (r : Request) (req : ChatRequest) (s : Server)
    → str_eq r.method "POST" ≡ true
    → req.stream ≡ false
    → is_empty (build_chat_prompt req.messages) ≡ false
    → (authorize s.auth r []).1 ≡ 401
    → handle_openai_chat_completions read digest now fuel look done r (some req) s
      ≡ some (s, write_error 500 (authorize s.auth r []).2)
unfolding handle_openai_chat_completions run_openai_compat_job answer_run
handle_openai_chat_completions-hides read digest now fuel look done r req s post plain prompted
      refused_ =
    ground (arith, refusal-status s.auth r refused_)
