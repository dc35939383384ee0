-- ===== src/Security/Auth.antt =====
-- core/doktok_core/security/auth.py. The sha256 of hashlib is a parameter, `hash_token`, and so is
-- PyJWT.
pub mod Tiers
use Prim.Native.Char.{code}
use doktok_ng.Prelude.{
  ℕ, zero, suc, ◌+◌, ◌≡◌, Bool, true, false, not, ◌&&◌, Option, none, some, List, [], ◌∷◌, String,
  str_eq, ltb, ◌==◌, if◌then◌else◌,
}
use doktok_ng.Security.Registry
use doktok_ng.Security.Registry.{TenantRegistry, TokenResolution, static}
use doktok_ng.Security.Sessions.{Jwt, decode_access_token}

-- A value, or the TypeError that `secrets.compare_digest` raises on a text beyond ASCII.
pub data Checked (A : Type 0) : Type 0 where
  ok : A → Checked A
  type_error : Checked A

infixl 5 ◌>>=◌
abbrev pub ◌>>=◌ : {A B : Type 0} → Checked A → (A → Checked B) → Checked B
ok a >>= f = f a
type_error >>= f = type_error

unfoldable pub is_ascii : String → Bool
is_ascii String.[] = true
is_ascii (String.◌∷◌ c s) = ltb (code c) 128 && is_ascii s

unfoldable pub compare_digest : String → String → Checked Bool
compare_digest a b = if is_ascii a && is_ascii b then ok (str_eq a b) else type_error

-- the loop of `resolve_tenant`: it does not stop at a match
unfoldable pub match_tenant :
    List (String × String) → String → Option String → Checked (Option String)
match_tenant [] presented matched = ok matched
match_tenant ((token, tenant_id) ∷ rest) presented matched = do
  same ← compare_digest token presented
  match_tenant rest presented (if same then some tenant_id else matched)

-- not presented
abbrev pub is_blank : Option String → Bool
is_blank none = true
is_blank (some text) = str_eq text ""

abbrev pub or_empty : Option String → String
or_empty none = ""
or_empty (some text) = text

unfoldable pub resolve_tenant : List (String × String) → Option String → Checked (Option String)
unfolding match_tenant
resolve_tenant tokens presented =
    if is_blank presented then ok none else match_tenant tokens (or_empty presented) none

abbrev static_resolution : Option String → Option TokenResolution
static_resolution none = none
static_resolution (some tenant_id) =
    some (record { tenant_id = tenant_id; user_id = none; via = static; role = none })

-- `static_tokens` is None or empty alike
unfoldable pub resolve_static :
    List (String × String) → Option String → Checked (Option TokenResolution)
unfolding resolve_tenant
resolve_static [] presented = ok none
resolve_static (entry ∷ rest) presented = do
  tenant ← resolve_tenant (entry ∷ rest) presented
  ok (static_resolution tenant)

module _ (hash_token : String → String) where
  unfoldable pub registry_resolution : Option TenantRegistry → String → Option TokenResolution
  registry_resolution none presented = none
  registry_resolution (some registry) presented =
      Registry.resolve_token (hash_token presented) registry

  unfoldable pub or_static :
      Option TokenResolution
      → List (String × String)
      → Option String
      → Checked (Option TokenResolution)
  or_static (some resolution) static_tokens presented = ok (some resolution)
  or_static none static_tokens presented = resolve_static static_tokens presented

  unfoldable pub resolve_token :
      Option String
      → Option TenantRegistry
      → List (String × String)
      → Checked (Option TokenResolution)
  unfolding registry_resolution or_static
  resolve_token presented registry static_tokens =
      if is_blank presented
      then ok none
      else or_static (registry_resolution registry (or_empty presented)) static_tokens presented

-- presented.count(".")
abbrev dots : String → ℕ
dots String.[] = 0
dots (String.◌∷◌ c s) = (if code c == b'.' then 1 else 0) + dots s

unfoldable pub looks_like_jwt : String → Bool
looks_like_jwt presented = dots presented == 2

module _ (hash_token : String → String) (lib : Jwt) where
  -- what the session tier gives: none without a secret, or for a credential of another shape
  session_resolution : Option String → String → ℕ → Option TokenResolution
  session_resolution none presented now = none
  session_resolution (some secret) presented now =
      if looks_like_jwt presented then decode_access_token lib presented secret none now else none

  or_token :
      Option TokenResolution
      → Option String
      → Option TenantRegistry
      → List (String × String)
      → Checked (Option TokenResolution)
  or_token (some resolution) presented registry static_tokens = ok (some resolution)
  or_token none presented registry static_tokens =
      resolve_token hash_token presented registry static_tokens

  unfoldable pub resolve_credential :
      Option String
      → Option TenantRegistry
      → List (String × String)
      → Option String
      → ℕ
      → Checked (Option TokenResolution)
  unfolding session_resolution or_token
  resolve_credential presented registry static_tokens jwt_secret now =
      if is_blank presented
      then ok none
      else or_token (session_resolution jwt_secret (or_empty presented) now) presented registry
          static_tokens
