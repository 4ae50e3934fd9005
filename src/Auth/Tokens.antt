-- ===== src/Auth/Tokens.antt =====
-- How `newAuthorizerFromEnv` of internal/api/auth.go reads SPLAI_API_TOKENS, SPLAI_API_ROLES and
-- SPLAI_API_TOKEN_ROLES. The three texts are arguments.
use Prim.Native.Char.{Char}
use splai.Base.{
  String, ◌⧺◌, Bool, true, false, ◌||◌, Option, none, some, List, [], ◌∷◌, ◌++◌, if◌then◌else◌,
  is_empty, trim_space, split, cut, member, Map, lookup_or, insert,
}
use splai.Auth.{Principal, Authorizer, token_id}

-- a set of texts with one more, and with a list of more
unfoldable pub add_scope : String → List String → List String
add_scope s set = if member s set then set else set ++ s ∷ []

unfoldable pub add_scopes : List String → List String → List String
unfolding add_scope
add_scopes [] set = set
add_scopes (s ∷ ss) set = add_scopes ss (add_scope s set)

-- the trimmed parts of a text that are not empty
unfoldable pub trimmed_parts : List String → List String
trimmed_parts [] = []
trimmed_parts (w ∷ ws) =
    let s = trim_space w in if is_empty s then trimmed_parts ws else s ∷ trimmed_parts ws

-- The name and the rest of an entry, where the entry has both.
unfoldable pub parse_entry : Char → String → Option (String × String)
parse_entry sep raw =
    let entry = trim_space raw in
    if is_empty entry then none else elim (cut sep entry) [
      | none ↦ none
      | some (name, rest) ↦
          if is_empty (trim_space name) || is_empty (trim_space rest)
          then none
          else some (trim_space name, trim_space rest)
    ]

abbrev pub no_texts : List String → Bool
no_texts [] = true
no_texts (s ∷ ss) = false

-- the entries of a text, one after the other
unfoldable pub each_entry {ℓ} :
    {A : Type ℓ} → Char → (String → String → A → A) → List String → A → A
unfolding parse_entry
each_entry sep put [] out = out
each_entry sep put (e ∷ es) out =
    each_entry sep put es
      (elim (parse_entry sep e) [ none ↦ out | some (name, rest) ↦ put name rest out ])

unfoldable pub put_role : String → String → Map (List String) → Map (List String)
unfolding add_scopes trimmed_parts
put_role role raw out =
    let scopes = add_scopes (trimmed_parts (split "|" raw)) [] in
    if no_texts scopes then out else insert role scopes out

unfoldable pub parse_role_scopes : String → Map (List String)
unfolding each_entry put_role
parse_role_scopes raw = if is_empty raw then [] else each_entry "=" put_role (split "," raw) []

unfoldable pub put_token_roles : String → String → Map (List String) → Map (List String)
unfolding trimmed_parts
put_token_roles token raw out =
    let roles = trimmed_parts (split "|" raw) in
    if no_texts roles then out else insert token roles out

unfoldable pub parse_token_roles : String → Map (List String)
unfolding each_entry put_token_roles
parse_token_roles raw =
    if is_empty raw then [] else each_entry "=" put_token_roles (split "," raw) []

abbrev pub default_role_scopes : Map (List String)
default_role_scopes =
    (
      "admin",
      "operator" ∷ "metrics" ∷ "admin" ∷ "tenant:*" ∷ "job:submit" ∷ "job:read" ∷ "job:cancel"
          ∷ "task:report" ∷ [],
    )
    ∷ ("ops", "operator" ∷ "metrics" ∷ [])
    ∷ ("tenant-runner", "job:submit" ∷ "job:read" ∷ "task:report" ∷ [])
    ∷ ("tenant-reader", "job:read" ∷ [])
    ∷ []

-- the roles of the configuration replace those of the same name
unfoldable pub merge_roles : Map (List String) → Map (List String) → Map (List String)
merge_roles [] out = out
merge_roles ((role, scopes) ∷ rest) out = merge_roles rest (insert role scopes out)

-- the scopes of a token's roles
unfoldable pub role_loop : Map (List String) → List String → List String → List String
unfolding add_scopes add_scope
role_loop role_scopes [] set = set
role_loop role_scopes (role ∷ roles) set =
    role_loop role_scopes roles
      (add_scopes (lookup_or [] role role_scopes) (add_scope ("role:" ⧺ role) set))

unfoldable pub put_token :
    Map (List String) → Map (List String) → String → String → Map Principal → Map Principal
unfolding add_scopes trimmed_parts role_loop
put_token role_scopes token_roles token raw out =
    let scopes =
      role_loop role_scopes (lookup_or [] token token_roles)
        (add_scopes (trimmed_parts (split "|" raw)) []) in
    if no_texts scopes
    then out
    else insert token (record { id = token_id token; scopes = scopes }) out

abbrev pub authorizer_of : Map Principal → Authorizer
authorizer_of [] = record { enabled = false; tokens = [] }
authorizer_of (entry ∷ tokens) = record { enabled = true; tokens = entry ∷ tokens }

unfoldable pub new_authorizer : String → String → String → Authorizer
unfolding parse_role_scopes parse_token_roles merge_roles each_entry put_token
new_authorizer roles_raw token_roles_raw tokens_raw =
    let role_scopes = merge_roles (parse_role_scopes (trim_space roles_raw)) default_role_scopes in
    let token_roles = parse_token_roles (trim_space token_roles_raw) in
    let raw = trim_space tokens_raw in
    if is_empty raw
    then record { enabled = false; tokens = [] }
    else authorizer_of (each_entry ":" (put_token role_scopes token_roles) (split "," raw) [])
