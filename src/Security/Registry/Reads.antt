-- ===== src/Security/Registry/Reads.antt =====
-- Revoked tokens, and digests in the reads: core/doktok_core/security/inmemory.py.
use doktok_ng.Prelude.{
  ℕ, ◌≡◌, refl, ap, inl, inr, true, false, Option, none, some, List, [], ◌∷◌, String, arith, str_eq,
  str_eq_self, str_eq→eq, eq_iff, Bool-cases, All, All-sorted, keep, map, find_first, keep_passes,
  dict_get, dict_set, dict_values, IsDict,
}
use doktok_ng.Security.Registry.{
  User, ApiToken, TenantRegistry, is_none, is_live, owns_user, without_digest, get_found, get_user,
  list_users, str_lt, resolve_token, revoke_found, revoke_api_token,
}

-- The user is the tenant's, and is shown without its digest.
abbrev pub IsPublic : String → User → Type 0
IsPublic t u = (owns_user t u ≡ true) × (u.password_hash ≡ none)

abbrev pub IsPublicOption : String → Option User → Type 0
IsPublicOption t none = Unit
IsPublicOption t (some u) = IsPublic t u

get_found-IsPublic : (t : String) (o : Option User) → IsPublicOption t (get_found t o)
unfolding get_found
get_found-IsPublic t none = tt
get_found-IsPublic t (some u) = elim (Bool-cases (owns_user t u)) [
  | inl own ↦ rw own (own, refl)
  | inr other ↦ rw other tt
]

All-without_digest :
    (t : String) (us : List User)
    → All (λ u. owns_user t u ≡ true) us
    → All (IsPublic t) (map without_digest us)
All-without_digest t [] h = tt
All-without_digest t (u ∷ us) h = ((h.0, refl), All-without_digest t us h.1)

-- `get_user` and `list_users` give users of the tenant that is asked for alone, and never a
-- password digest.
pub reads-IsPublic :
    (lower strip : String → String) (t id : String) (s : TenantRegistry)
    → IsPublicOption t (get_user t id s) × All (IsPublic t) (list_users lower strip t s)
unfolding get_user list_users
reads-IsPublic lower strip t id s = (
  get_found-IsPublic t (dict_get s.users id),
  All-sorted (IsPublic t) (λ a b. str_lt (lower a.email) (lower b.email))
      (map without_digest (keep (owns_user t) (dict_values s.users)))
      (All-without_digest t (keep (owns_user t) (dict_values s.users))
        (keep_passes (owns_user t) (dict_values s.users))),
)

-- The digest of a token is that of no other token.
abbrev pub IsOnly : String → String → List (String × ApiToken) → Type 0
IsOnly id sha tokens =
    All (λ (e : String × ApiToken). str_eq e.1.token_sha256 sha ≡ true → e.0 ≡ id) tokens

module _ (id sha : String) where
  absent :
      (k : String) (rest : List (String × ApiToken))
      → k ≡ id
      → All (λ e. str_eq e.0 k ≡ false) rest
      → IsOnly id sha rest
      → find_first (is_live sha) (dict_values rest) ≡ none
  absent k [] here once only = refl
  absent k ((j, v) ∷ rest) here once only =
      ground (arith, eq_iff j k, only.0, absent k rest here once.1 only.1)

  -- A value overwritten by a revoked token is found by no search for its digest.
  find_first-revoked :
      (gone : ApiToken) (tokens : List (String × ApiToken))
      → is_none gone.revoked_at ≡ false
      → IsDict tokens
      → IsOnly id sha tokens
      → find_first (is_live sha) (dict_values (dict_set tokens id gone)) ≡ none
  find_first-revoked gone [] dead once only = ground arith
  find_first-revoked gone ((k, v) ∷ rest) dead once only = elim (Bool-cases (str_eq k id)) [
    | inl here ↦ rw here (ground (arith, absent k rest (str_eq→eq k id here) once.0 only.1))
    | inr there ↦
        ground (arith, only.0, eq_iff k id, find_first-revoked gone rest dead once.1 only.1)
  ]

  -- So is a token that was revoked before.
  find_first-dead :
      (gone : ApiToken) (tokens : List (String × ApiToken))
      → dict_get tokens id ≡ some gone
      → is_none gone.revoked_at ≡ false
      → IsDict tokens
      → IsOnly id sha tokens
      → find_first (is_live sha) (dict_values tokens) ≡ none
  find_first-dead gone [] e dead once only = cc
  find_first-dead gone ((k, v) ∷ rest) e dead once only = elim (Bool-cases (str_eq k id)) [
    | inl here ↦
        let e' : some v ≡ some gone = rw here at e in
        let same : v ≡ gone = cc in
        ground (
          arith,
          ap (λ (x : ApiToken). x.revoked_at) same,
          absent k rest (str_eq→eq k id here) once.0 only.1,
        )
    | inr there ↦
        let e' : dict_get rest id ≡ some gone = rw there at e in
        ground (arith, only.0, eq_iff k id, find_first-dead gone rest e' dead once.1 only.1)
  ]

-- After `revoke_api_token` by its tenant, the digest of a token resolves nothing: where the ids are
-- the keys of a dict and no other token has the digest.
pub revoke_api_token-blocks :
    (now : ℕ) (t id : String) (token : ApiToken) (s : TenantRegistry)
    → dict_get s.tokens id ≡ some token
    → token.tenant_id ≡ t
    → IsDict s.tokens
    → IsOnly id token.token_sha256 s.tokens
    → resolve_token token.token_sha256 (revoke_api_token now t id s) ≡ none
unfolding resolve_token revoke_api_token
revoke_api_token-blocks now t id token s e own once only =
    let owned : str_eq token.tenant_id t ≡ true = rw own (str_eq_self t) in
    elim (Bool-cases (is_none token.revoked_at)) [
      | inl live ↦
          rw
            (
              e,
              revoke_found,
              owned,
              live,
              find_first-revoked id token.token_sha256 (record token { revoked_at = some now })
                  s.tokens refl once only,
            )
            refl
      | inr dead ↦
          rw
            (
              e,
              revoke_found,
              owned,
              dead,
              find_first-dead id token.token_sha256 token s.tokens e dead once only,
            )
            refl
    ]
