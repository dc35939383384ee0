-- ===== src/Security/Auth/Tiers.antt =====
-- Which tier resolves a credential, and what each tier vouches for.
use doktok_ng.Prelude.{
  ℕ, ◌≡◌, refl, ◌∙◌, subst, ◌⊎◌, inl, inr, true, false, ◌&&◌, Option, none, some, List, [], ◌∷◌,
  String, arith, str_eq, str_eq→eq, Bool-cases, if◌then◌else◌,
}
use doktok_ng.Security.Registry
use doktok_ng.Security.Registry.{TenantRegistry, TokenResolution, static}
use doktok_ng.Security.Sessions.{Jwt, decode_access_token}
use doktok_ng.Security.Auth.{
  Checked, ok, type_error, ◌>>=◌, is_ascii, compare_digest, match_tenant, is_blank, or_empty,
  resolve_tenant, static_resolution, resolve_static, registry_resolution, or_static, resolve_token,
  looks_like_jwt, session_resolution, or_token, resolve_credential,
}

-- The pair stands in the static map.
abbrev pub IsEntry : String → String → List (String × String) → Type 0
IsEntry token tenant_id [] = ⊥
IsEntry token tenant_id ((k, v) ∷ rest) =
    ((k ≡ token) × (v ≡ tenant_id)) ⊎ IsEntry token tenant_id rest

match_tenant-IsEntry :
    (tokens : List (String × String)) (presented : String) (matched : Option String)
    (tenant_id : String)
    → match_tenant tokens presented matched ≡ ok (some tenant_id)
    → IsEntry presented tenant_id tokens ⊎ (matched ≡ some tenant_id)
unfolding match_tenant compare_digest
match_tenant-IsEntry [] presented matched tenant_id h = inr (cc)
match_tenant-IsEntry ((k, v) ∷ rest) presented matched tenant_id h =
    elim (Bool-cases (is_ascii k && is_ascii presented)) [
      | inr bad ↦ let h' : type_error ≡ ok (some tenant_id) = rw bad at h in absurd (cc)
      | inl good ↦
          let h' : match_tenant rest presented (if str_eq k presented then some v else matched)
              ≡ ok (some tenant_id) =
            rw good at h in
          elim (match_tenant-IsEntry rest presented (if str_eq k presented then some v else matched)
            tenant_id h') [
              | inl later ↦ inl (inr later)
              | inr now ↦ elim (Bool-cases (str_eq k presented)) [
                | inl same ↦
                    let now' : some v ≡ some tenant_id = rw same at now in
                    inl (inl (str_eq→eq k presented same, cc))
                | inr other ↦ let now' : matched ≡ some tenant_id = rw other at now in inr now'
              ]
            ]
    ]

-- A credential that the static map resolves is one of its tokens, and the tenant is the one that
-- the map gives it.
pub resolve_tenant-IsEntry :
    (tokens : List (String × String)) (presented : Option String) (tenant_id : String)
    → resolve_tenant tokens presented ≡ ok (some tenant_id)
    → IsEntry (or_empty presented) tenant_id tokens
unfolding resolve_tenant
resolve_tenant-IsEntry tokens none tenant_id h = absurd (cc)
resolve_tenant-IsEntry tokens (some text) tenant_id h = elim (Bool-cases (str_eq text "")) [
  | inl blank ↦
      let h' : ◌≡◌ {A = Checked (Option String)} (ok none) (ok (some tenant_id)) = rw blank at h in
      absurd (cc)
  | inr given ↦
      let h' : match_tenant tokens text none ≡ ok (some tenant_id) = rw given at h in
      elim (match_tenant-IsEntry tokens text none tenant_id h') [
        | inl entry ↦ entry
        | inr e ↦ absurd (cc)
      ]
]

module _ (hash_token : String → String) (lib : Jwt) (now : ℕ) where
  abbrev pub FromSession : Option String → String → TokenResolution → Type 0
  FromSession jwt_secret presented r =
      (secret : String) × (jwt_secret ≡ some secret)
      × (looks_like_jwt presented ≡ true)
      × (decode_access_token lib presented secret none now ≡ some r)

  abbrev pub FromRegistry : Option TenantRegistry → String → TokenResolution → Type 0
  FromRegistry registry presented r =
      (s : TenantRegistry) × (registry ≡ some s)
      × (Registry.resolve_token (hash_token presented) s ≡ some r)

  abbrev pub FromStatic : List (String × String) → String → TokenResolution → Type 0
  FromStatic static_tokens presented r =
      (r.via ≡ static) × (r.user_id ≡ none) × IsEntry presented r.tenant_id static_tokens

  session-FromSession :
      (jwt_secret : Option String) (presented : String) (r : TokenResolution)
      → session_resolution hash_token lib jwt_secret presented now ≡ some r
      → FromSession jwt_secret presented r
  unfolding session_resolution
  session-FromSession none presented r h = absurd (cc)
  session-FromSession (some secret) presented r h = elim (Bool-cases (looks_like_jwt presented)) [
    | inl shaped ↦ (secret, refl, shaped, (rw shaped at h))
    | inr other ↦
        let h' : ◌≡◌ {A = Option TokenResolution} none (some r) = rw other at h in absurd (cc)
  ]

  registry-FromRegistry :
      (registry : Option TenantRegistry) (presented : String) (r : TokenResolution)
      → registry_resolution hash_token registry presented ≡ some r
      → FromRegistry registry presented r
  unfolding registry_resolution
  registry-FromRegistry none presented r h = absurd (cc)
  registry-FromRegistry (some s) presented r h = (s, refl, h)

  static-FromStatic :
      (static_tokens : List (String × String)) (presented : Option String) (r : TokenResolution)
      → resolve_static static_tokens presented ≡ ok (some r)
      → FromStatic static_tokens (or_empty presented) r
  unfolding resolve_static
  static-FromStatic [] presented r h = absurd (cc)
  static-FromStatic (entry ∷ rest) presented r h =
      go (resolve_tenant (entry ∷ rest) presented) refl h
    where
      go :
          (o : Checked (Option String))
          → resolve_tenant (entry ∷ rest) presented ≡ o
          → (o >>= λ tenant. ok (static_resolution tenant)) ≡ ok (some r)
          → FromStatic (entry ∷ rest) (or_empty presented) r
      go type_error e k = absurd (cc)
      go (ok none) e k = absurd (cc)
      go (ok (some tenant_id)) e k =
          let same : record { tenant_id = tenant_id; user_id = none; via = static; role = none }
              ≡ r =
            cc in
          subst (FromStatic (entry ∷ rest) (or_empty presented)) same
            (refl, refl, resolve_tenant-IsEntry (entry ∷ rest) presented tenant_id e)

  token_tiers :
      (presented : Option String) (registry : Option TenantRegistry)
      (static_tokens : List (String × String)) (r : TokenResolution)
      → resolve_token hash_token presented registry static_tokens ≡ ok (some r)
      → FromRegistry registry (or_empty presented) r
        ⊎ FromStatic static_tokens (or_empty presented) r
  unfolding resolve_token
  token_tiers presented registry static_tokens r h = elim (Bool-cases (is_blank presented)) [
    | inl blank ↦
        let h' : ◌≡◌ {A = Checked (Option TokenResolution)} (ok none) (ok (some r)) =
          rw blank at h in
        absurd (cc)
    | inr given ↦
        go (registry_resolution hash_token registry (or_empty presented)) refl (rw given at h)
  ]
    where
      go :
          (o : Option TokenResolution)
          → registry_resolution hash_token registry (or_empty presented) ≡ o
          → or_static hash_token o static_tokens presented ≡ ok (some r)
          → FromRegistry registry (or_empty presented) r
            ⊎ FromStatic static_tokens (or_empty presented) r
      go none e k = inr (static-FromStatic static_tokens presented r k)
      go (some q) e k = inl (registry-FromRegistry registry (or_empty presented) r (e ∙ (cc)))

  -- Whatever a credential resolves to comes from one of the three tiers: a session token, of the
  -- shape of a JWT, that the decoder accepts under the configured secret; a live token of the
  -- registry with the hash of the credential; or an entry of the static map for the credential
  -- itself, and then it resolves to the tenant of the entry, as a static credential without a user.
  pub resolve_credential_tiers :
      (presented : Option String) (registry : Option TenantRegistry)
      (static_tokens : List (String × String)) (jwt_secret : Option String) (r : TokenResolution)
      → resolve_credential hash_token lib presented registry static_tokens jwt_secret now
        ≡ ok (some r)
      → FromSession jwt_secret (or_empty presented) r
        ⊎ (FromRegistry registry (or_empty presented) r
            ⊎ FromStatic static_tokens (or_empty presented) r)
  unfolding resolve_credential
  resolve_credential_tiers presented registry static_tokens jwt_secret r h =
      elim (Bool-cases (is_blank presented)) [
        | inl blank ↦
            let h' : ◌≡◌ {A = Checked (Option TokenResolution)} (ok none) (ok (some r)) =
              rw blank at h in
            absurd (cc)
        | inr given ↦
            go (session_resolution hash_token lib jwt_secret (or_empty presented) now) refl
              (rw given at h)
      ]
    where
      go :
          (o : Option TokenResolution)
          → session_resolution hash_token lib jwt_secret (or_empty presented) now ≡ o
          → or_token hash_token lib o presented registry static_tokens ≡ ok (some r)
          → FromSession jwt_secret (or_empty presented) r
            ⊎ (FromRegistry registry (or_empty presented) r
                ⊎ FromStatic static_tokens (or_empty presented) r)
      go none e k = inr (token_tiers presented registry static_tokens r k)
      go (some q) e k = inl (session-FromSession jwt_secret (or_empty presented) r (e ∙ (cc)))

match_tenant-raises :
    (k v : String) (rest : List (String × String)) (text : String)
    → is_ascii text ≡ false
    → match_tenant ((k, v) ∷ rest) text none ≡ type_error
unfolding match_tenant compare_digest
match_tenant-raises k v rest text h = ground (arith, h)

-- A credential with a character beyond ASCII that the registry does not resolve is not turned
-- away: where the static map has an entry, the comparison raises.
pub resolve_token-raises :
    (hash_token : String → String) (text : String) (registry : Option TenantRegistry)
    (entry : String × String) (rest : List (String × String))
    → is_ascii text ≡ false
    → str_eq text "" ≡ false
    → registry_resolution hash_token registry text ≡ none
    → resolve_token hash_token (some text) registry (entry ∷ rest) ≡ type_error
unfolding resolve_token resolve_static resolve_tenant
resolve_token-raises hash_token text registry (k, v) rest wide given missed =
    rw (given, missed, given, match_tenant-raises k v rest text wide) refl
