-- ===== src/Auth/Grants.antt =====
-- Which scopes newAuthorizerFromEnv of internal/api/auth.go gives to the principal of a token.
use splai.Base.{
  String, ◌⧺◌, Bool, false, ◌||◌, ap, sym, none, some, List, [], ◌∷◌, ◌++◌, ◌≡◌, refl, ◌∙◌, arith,
  str_eq, eq_iff, split, member, Map, lookup, lookup_or, lookup-insert, Bool-cases, inl, inr,
}
use splai.Auth.{Principal, token_id}
use splai.Auth.Tokens.{add_scope, add_scopes, trimmed_parts, no_texts, put_token, role_loop}

-- a scope that one of the roles brings, or the name of one
abbrev pub roles_grant : Map (List String) → List String → String → Bool
roles_grant role_scopes [] s = false
roles_grant role_scopes (role ∷ roles) s =
    str_eq s ("role:" ⧺ role)
    || member s (lookup_or [] role role_scopes)
    || roles_grant role_scopes roles s

member-append :
    (s : String) (xs ys : List String) → member s (xs ++ ys) ≡ (member s xs || member s ys)
member-append s [] ys = refl
member-append s (x ∷ xs) ys = ground (arith, member-append s xs ys)

member-add_scope :
    (s x : String) (set : List String) → member s (add_scope x set) ≡ (str_eq s x || member s set)
unfolding add_scope
member-add_scope s x set = ground (arith, eq_iff s x, member-append s set (x ∷ []))

member-add_scopes :
    (s : String) (xs set : List String)
    → member s (add_scopes xs set) ≡ (member s xs || member s set)
unfolding add_scopes
member-add_scopes s [] set = refl
member-add_scopes s (x ∷ xs) set =
    ground (arith, member-add_scopes s xs (add_scope x set), member-add_scope s x set)

member-role_loop :
    (s : String) (rs : Map (List String)) (roles set : List String)
    → member s (role_loop rs roles set) ≡ (roles_grant rs roles s || member s set)
unfolding role_loop
member-role_loop s rs [] set = refl
member-role_loop s rs (role ∷ roles) set =
    let named = add_scope ("role:" ⧺ role) set in
    let scopes = lookup_or [] role rs in
    ground (
      arith,
      member-role_loop s rs roles (add_scopes scopes named),
      member-add_scopes s scopes named,
      member-add_scope s ("role:" ⧺ role) set,
    )

-- The principal that the first entry of a token brings in has exactly the scopes that the entry
-- lists, the names of the token's roles and the scopes of these roles.
pub put_token-grants :
    (role_scopes token_roles : Map (List String)) (token raw : String) (out : Map Principal)
    (p : Principal)
    → lookup token out ≡ none
    → lookup token (put_token role_scopes token_roles token raw out) ≡ some p
    → (s : String)
    → member s p.scopes ≡ (
        roles_grant role_scopes (lookup_or [] token token_roles) s
        || member s (trimmed_parts (split "|" raw)))
unfolding put_token
put_token-grants role_scopes token_roles token raw out p new found s =
    let listed = trimmed_parts (split "|" raw) in
    let roles = lookup_or [] token token_roles in
    let scopes = role_loop role_scopes roles (add_scopes listed []) in
    let given : Principal = record { id = token_id token; scopes = scopes } in
    elim (Bool-cases (no_texts scopes)) [
      | inl none_left ↦ ground (arith)
      | inr some_left ↦
          let same : given ≡ p =
            ground (arith, eq_iff token token, lookup-insert token token given out) in
          ap (λ (q : Principal). member s q.scopes) (sym same)
          ∙ member-role_loop s role_scopes roles (add_scopes listed [])
          ∙ ground (arith, member-add_scopes s listed [])
    ]
