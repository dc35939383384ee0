-- ===== src/Security/Examples.antt =====
-- The claims about roles, the upload policy, sessions and credentials at concrete inputs.
use doktok_ng.Prelude.{
  ◌+◌, ◌*◌, ◌≤◌, ◌≡◌, ◌⊎◌, ◌↔◌, refl, true, false, none, some, List, [], ◌∷◌, String, ltb, ◌/◌,
  if◌then◌else◌,
}
use doktok_ng.Security.Policy.{
  contains, default_allowed_mimes, default_dangerous_mimes, new_policy, is_allowed, is_allowed_iff,
}
use doktok_ng.Security.Registry.{TokenResolution, jwt, static}
use doktok_ng.Security.Sessions.{
  Jwt, issued_claims, issue_access_token, decode_access_token, decode-issue,
}
use doktok_ng.Security.Auth.{
  ok, type_error, is_ascii, compare_digest, match_tenant, resolve_tenant, resolve_static,
  registry_resolution, resolve_token, resolve_credential, looks_like_jwt,
}
use doktok_ng.Security.Auth.Tiers.{
  FromSession, FromRegistry, FromStatic, resolve_credential_tiers, resolve_token-raises,
}

is_allowed_iff_example :
    (is_allowed (new_policy 200 default_allowed_mimes default_dangerous_mimes) "image/png" 4096
      ≡ true)
    ↔ ((4096 ≤ 200 * 1024 * 1024)
        × (contains default_allowed_mimes "image/png" ≡ true)
        × (contains default_dangerous_mimes "image/png" ≡ false))
is_allowed_iff_example =
    is_allowed_iff 200 default_allowed_mimes default_dangerous_mimes "image/png" 4096

-- A library that gives back what this user's token was made of.
abbrev lib : Jwt
lib = record {
  encode = λ c k. "a.b.c";
  decode = λ token k clock.
      if ltb clock 5_000_000 then none else some (issued_claims "acme" "u1" 60 5_000_000);
}

issued : issue_access_token lib "acme" "u1" "key" 60 5_000_000 ≡ some "a.b.c"
unfolding issue_access_token
issued = refl

decode-issue_example : decode_access_token lib "a.b.c" "key" none 64_000_000 ≡ (
    if ltb 64_000_000 (5_000_000 / 1_000_000 * 1_000_000)
    then none
    else if ltb (64_000_000 / 1_000_000) (5_000_000 / 1_000_000 + 60)
    then some (record { tenant_id = "acme"; user_id = some "u1"; via = jwt; role = none })
    else none)
decode-issue_example =
    decode-issue lib "acme" "u1" "key" "a.b.c" 60 5_000_000 none 64_000_000 issued refl refl

abbrev same : String → String
same s = s

abbrev statics : List (String × String)
statics = ("host-token", "acme") ∷ []

abbrev platform : TokenResolution
platform = record { tenant_id = "acme"; user_id = none; via = static; role = none }

by_map :
    resolve_credential same lib (some "host-token") none statics (some "key") 9 ≡ ok (some platform)
unfolding resolve_credential resolve_token looks_like_jwt resolve_static resolve_tenant match_tenant
    compare_digest is_ascii
by_map = refl

resolve_credential_tiers_example :
    FromSession same lib 9 (some "key") "host-token" platform
    ⊎ (FromRegistry same lib 9 none "host-token" platform
        ⊎ FromStatic same lib 9 statics "host-token" platform)
resolve_credential_tiers_example =
    resolve_credential_tiers same lib 9 (some "host-token") none statics (some "key") platform
      by_map

wide : is_ascii "tökén" ≡ false
unfolding is_ascii
wide = refl

resolve_token-raises_example : resolve_token same (some "tökén") none statics ≡ type_error
resolve_token-raises_example =
    resolve_token-raises same "tökén" none ("host-token", "acme") [] wide refl
      (unfold registry_resolution in refl)
