-- ===== src/Tests/AuthTests.antt =====
-- The authentication of internal/api/auth.go at concrete texts and requests.
use splai.Base.{◌≡◌, refl, ◌↔◌, ◌⊎◌, true, false, ◌||◌, [], ◌∷◌, lookup, member, split, insert}
use splai.Auth.{Principal, Request, Authorizer, authorize, anonymous, bearer_token, token_id}
use splai.Auth.Tokens.{new_authorizer, put_token, trimmed_parts}
use splai.Auth.Decisions.{Presents, HoldsAny, authorize_iff}
use splai.Auth.Parsing.{IsSafe, new_authorizer-IsSafe}
use splai.Auth.Grants.{roles_grant, put_token-grants}

abbrev reader : Principal
reader = record { id = "tok-1"; scopes = "tenant:acme" ∷ "job:read" ∷ [] }

abbrev owner : Principal
owner = record { id = "tok-2"; scopes = "tenant:acme" ∷ [] }

abbrev gate : Authorizer
gate = record { enabled = true; tokens = ("secret", reader) ∷ ("other", owner) ∷ [] }

abbrev request : Request
request = record {
  method = "GET";
  url_path = "/v1/jobs/job-1";
  query = [];
  header = ("Authorization", "Bearer secret") ∷ [];
  remote_addr = "10.0.0.1";
}

request_token : bearer_token request ≡ "secret"
unfolding bearer_token splai.Base.has_prefix splai.Base.to_lower splai.Base.trim_space lookup
    splai.Base.drop_text
request_token = refl

token_id_secret : token_id "a" ≡ "tok-e40c292c"
unfolding token_id splai.Base.nth splai.Base.fnv32a splai.Base.bytes
token_id_secret = refl

abbrev texts : Authorizer
texts = new_authorizer "" "secret=tenant-reader" " secret : tenant:acme |, broken, empty:, :none "

texts_read : texts ≡ record {
  enabled = true;
  tokens =
      (
        "secret",
        record {
          id = token_id "secret";
          scopes = "tenant:acme" ∷ "role:tenant-reader" ∷ "job:read" ∷ [];
        },
      )
      ∷ [];
}
unfolding new_authorizer splai.Base.is_empty splai.Base.trim_space split splai.Base.cut lookup
    insert
texts_read = refl

authorize_iff_example :
    (authorize gate request ("operator" ∷ "job:read" ∷ []) ≡ (reader, 200, "")) ↔ (
      ((gate.enabled ≡ false) × (reader ≡ anonymous))
      ⊎ ((gate.enabled ≡ true)
          × Presents gate request reader
          × HoldsAny reader ("operator" ∷ "job:read" ∷ [])))
authorize_iff_example = authorize_iff gate request ("operator" ∷ "job:read" ∷ []) reader

new_authorizer-IsSafe_example : IsSafe (new_authorizer "" "" "secret:tenant:acme,")
new_authorizer-IsSafe_example = new_authorizer-IsSafe "" "" "secret:tenant:acme,"

put_token-grants_example : member "job:read" ("a" ∷ "role:ops" ∷ "job:read" ∷ []) ≡ (
    roles_grant (("ops", "job:read" ∷ []) ∷ []) ("ops" ∷ []) "job:read"
    || member "job:read" (trimmed_parts (split "|" "a| ")))
unfolding put_token lookup insert split splai.Base.is_empty splai.Base.trim_space
put_token-grants_example =
    put_token-grants (("ops", "job:read" ∷ []) ∷ []) (("secret", "ops" ∷ []) ∷ []) "secret" "a| " []
      (record { id = token_id "secret"; scopes = "a" ∷ "role:ops" ∷ "job:read" ∷ [] }) refl refl
      "job:read"
