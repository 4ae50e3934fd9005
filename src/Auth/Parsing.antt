-- ===== src/Auth/Parsing.antt =====
-- What newAuthorizerFromEnv of internal/api/auth.go lets in, whatever the three texts hold.
use Prim.Native.Char.{Char}
use splai.Base.{
  String, true, false, some, List, [], ◌∷◌, ◌≡◌, refl, subst, ◌≢◌, inl, inr, arith, str_eq, eq_iff,
  is_empty, trim_space, split, Map, lookup, lookup_or, insert, lookup-insert, Bool-cases,
  Option-cases,
}
use splai.Auth.{Principal, Authorizer, token_id}
use splai.Auth.Tokens.{
  add_scopes, trimmed_parts, parse_entry, no_texts, each_entry, put_token, role_loop,
  new_authorizer, authorizer_of, merge_roles, parse_role_scopes, parse_token_roles,
  default_role_scopes,
}

-- A token is not empty, and its principal has the token's name and at least one scope.
abbrev pub IsEntry : String → Principal → Type 0
IsEntry token p = (token ≢ "") × (no_texts p.scopes ≡ false) × (p.id ≡ token_id token)

abbrev pub AllEntries : Map Principal → Type 0
AllEntries tokens =
    (token : String) (p : Principal) → lookup token tokens ≡ some p → IsEntry token p

pub record IsSafe (a : Authorizer) : Type 0 where
  pub entries : AllEntries a.tokens
  pub closed :
      a.enabled ≡ true → (token : String) × (p : Principal) × (lookup token a.tokens ≡ some p)
  pub opened : a.enabled ≡ false → a.tokens ≡ []

nonempty : (s : String) → is_empty s ≡ false → s ≢ ""
unfolding is_empty
nonempty String.[] h = absurd (cc)
nonempty (String.◌∷◌ c s) h = λ e. cc

parse_entry-nonempty :
    (sep : Char) (raw name rest : String)
    → parse_entry sep raw ≡ some (name, rest)
    → (name ≢ "") × (rest ≢ "")
unfolding parse_entry
parse_entry-nonempty sep raw name rest h = ground (arith, nonempty name, nonempty rest)

-- what every entry's step keeps, the whole text keeps
each_entry-keeps {ℓ κ} :
    {A : Type ℓ} (P : A → Type κ) (sep : Char) (put : String → String → A → A)
    → ((name rest : String) (out : A) → name ≢ "" → P out → P (put name rest out))
    → (es : List String) (out : A) → P out
    → P (each_entry sep put es out)
unfolding each_entry
each_entry-keeps P sep put keep [] out p = p
each_entry-keeps P sep put keep (e ∷ es) out p = elim (Option-cases (parse_entry sep e)) [
  | inl n ↦ rw n (each_entry-keeps P sep put keep es out p)
  | inr ((name, rest), s) ↦ rw s (
      each_entry-keeps P sep put keep es (put name rest out)
        (keep name rest out (parse_entry-nonempty sep e name rest s).0 p))
]

insert-AllEntries :
    (token : String) (p : Principal) (out : Map Principal)
    → IsEntry token p
    → AllEntries out
    → AllEntries (insert token p out)
insert-AllEntries token p out e all other q h = elim (Bool-cases (str_eq token other)) [
  | inl same ↦
      let same' : token ≡ other = ground (arith, eq_iff token other) in
      let p' : p ≡ q = ground (arith, lookup-insert token other p out) in
      subst (λ t. IsEntry t q) same' (subst (IsEntry token) p' e)
  | inr apart ↦ all other q (ground (arith, lookup-insert token other p out))
]

module _ (role_scopes token_roles : Map (List String)) where
  put_token-AllEntries :
      (token raw : String) (out : Map Principal)
      → token ≢ ""
      → AllEntries out
      → AllEntries (put_token role_scopes token_roles token raw out)
  unfolding put_token
  put_token-AllEntries token raw out ne all =
      let scopes =
        role_loop role_scopes (lookup_or [] token token_roles)
          (add_scopes (trimmed_parts (split "|" raw)) []) in
      elim (Bool-cases (no_texts scopes)) [
        | inl none_left ↦ rw none_left all
        | inr some_left ↦ rw some_left (
            insert-AllEntries token (record { id = token_id token; scopes = scopes }) out
              (ne, some_left, refl) all)
      ]

authorizer_of-IsSafe : (tokens : Map Principal) → AllEntries tokens → IsSafe (authorizer_of tokens)
unfolding lookup
authorizer_of-IsSafe [] all = record {
  entries = λ t p h. absurd (cc);
  closed = λ h. absurd (cc);
  opened = λ h. refl;
}
authorizer_of-IsSafe ((token, p) ∷ rest) all = record {
  entries = all;
  closed = λ h. (token, p, ground (arith, eq_iff token token));
  opened = λ h. absurd (cc);
}

-- Whatever the three texts hold: an enabled authorizer knows some token and a disabled one knows
-- none; and it knows no empty token and no principal without scopes, and names each principal by
-- the hash of its token.
pub new_authorizer-IsSafe :
    (roles token_roles tokens : String) → IsSafe (new_authorizer roles token_roles tokens)
unfolding new_authorizer
new_authorizer-IsSafe roles token_roles tokens =
    let role_scopes = merge_roles (parse_role_scopes (trim_space roles)) default_role_scopes in
    let token_roles' = parse_token_roles (trim_space token_roles) in
    elim (Bool-cases (is_empty (trim_space tokens))) [
      | inl none_set ↦ rw none_set (authorizer_of-IsSafe [] (λ t p h. absurd (unfold lookup in cc)))
      | inr some_set ↦ rw some_set (
          authorizer_of-IsSafe _ (
            each_entry-keeps AllEntries ":" (put_token role_scopes token_roles')
              (put_token-AllEntries role_scopes token_roles') (split "," (trim_space tokens)) []
              (λ t p h. absurd (unfold lookup in cc))))
    ]
