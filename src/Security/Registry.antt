-- ===== src/Security/Registry.antt =====
-- The tenant registry: core/doktok_core/security/inmemory.py, and the records of
-- contracts/doktok_contracts/schemas.py that it keeps. `lower` and `strip` stand for the methods of
-- `str`, whose tables of Unicode are no part of the program; `now` is what `datetime.now(UTC)`
-- returns.
pub mod Isolation
pub mod Invitations
pub mod Reads
mod Examples
use Prim.Native.Nat.{Ordering}
use Prim.Native.String.{compare}
use doktok_ng.Prelude.{
  ℕ, Bool, true, false, not, ◌&&◌, Option, none, some, List, [], ◌∷◌, map, String, str_eq, ltb,
  if◌then◌else◌, keep, find_first, sorted, dict_get, dict_set, dict_setdefault, dict_values,
}

pub record Tenant : Type 0 where
  pub id : String
  pub name : String
  pub status : String
  pub created_at : Option ℕ

pub record User : Type 0 where
  pub id : String
  pub tenant_id : String
  pub email : String
  pub display_name : String
  pub status : String
  pub role : String
  pub password_hash : Option String
  pub created_at : Option ℕ

pub record ApiToken : Type 0 where
  pub id : String
  pub tenant_id : String
  pub user_id : Option String
  pub token_sha256 : String
  pub token_prefix : String
  pub name : String
  pub role : String
  pub created_at : Option ℕ
  pub last_used_at : Option ℕ
  pub revoked_at : Option ℕ

pub record Invitation : Type 0 where
  pub id : String
  pub tenant_id : String
  pub user_id : String
  pub email : String
  pub role : String
  pub token_sha256 : String
  pub expires_at : ℕ
  pub created_at : Option ℕ
  pub accepted_at : Option ℕ

-- The tier that resolved a credential: "db", "static" or "jwt".
pub data Via : Type 0 where
  db static jwt : Via

pub record TokenResolution : Type 0 where
  pub tenant_id : String
  pub user_id : Option String
  pub via : Via
  pub role : Option String

pub record TenantRegistry : Type 0 where
  pub tenants : List (String × Tenant)
  pub users : List (String × User)
  pub tokens : List (String × ApiToken)
  pub invitations : List (String × Invitation)

abbrev pub is_none : Option ℕ → Bool
is_none none = true
is_none (some n) = false

-- `<` of texts, by code points
abbrev pub str_lt : String → String → Bool
str_lt a b = elim (compare a b) [ Ordering.lt ↦ true | _ ↦ false ]

abbrev pub is_live : String → ApiToken → Bool
is_live sha token = str_eq token.token_sha256 sha && is_none token.revoked_at

abbrev resolution_of : Option ApiToken → Option TokenResolution
resolution_of none = none
resolution_of (some token) = some (record {
  tenant_id = token.tenant_id;
  user_id = token.user_id;
  via = db;
  role = some token.role;
})

pub resolve_token : String → TenantRegistry → Option TokenResolution
resolve_token sha s = resolution_of (find_first (is_live sha) (dict_values s.tokens))

pub create_tenant : Tenant → TenantRegistry → TenantRegistry
create_tenant tenant s = record s { tenants = dict_setdefault s.tenants tenant.id tenant }

pub get_tenant : String → TenantRegistry → Option Tenant
get_tenant id s = dict_get s.tenants id

pub list_tenants : TenantRegistry → List Tenant
list_tenants s = sorted (λ a b. str_lt a.id b.id) (dict_values s.tenants)

pub create_user : User → TenantRegistry → TenantRegistry
create_user user s = record s { users = dict_setdefault s.users user.id user }

abbrev pub without_digest : User → User
without_digest user = record user { password_hash = none }

abbrev pub owns_user : String → User → Bool
owns_user t user = str_eq user.tenant_id t

get_found : String → Option User → Option User
get_found t none = none
get_found t (some user) = if owns_user t user then some (without_digest user) else none

pub get_user : String → String → TenantRegistry → Option User
unfolding get_found
get_user t id s = get_found t (dict_get s.users id)

module _ (lower strip : String → String) where
  pub get_user_by_email : String → String → TenantRegistry → Option User
  get_user_by_email t email s =
      find_first (λ user. owns_user t user && str_eq (lower user.email) (lower (strip email)))
        (dict_values s.users)

  pub list_users : String → TenantRegistry → List User
  list_users t s =
      sorted (λ a b. str_lt (lower a.email) (lower b.email))
        (map without_digest (keep (owns_user t) (dict_values s.users)))

-- `user and user.tenant_id == tenant_id`, and the copy with the update
update_found : (User → User) → String → String → Option User → TenantRegistry → TenantRegistry
update_found f t id none s = s
update_found f t id (some user) s =
    if owns_user t user then record s { users = dict_set s.users id (f user) } else s

pub update_user : (User → User) → String → String → TenantRegistry → TenantRegistry
unfolding update_found
update_user f t id s = update_found f t id (dict_get s.users id) s

pub set_user_password : String → String → String → TenantRegistry → TenantRegistry
unfolding update_user
set_user_password t id digest s = update_user (λ u. record u { password_hash = some digest }) t id s

pub set_user_role : String → String → String → TenantRegistry → TenantRegistry
unfolding update_user
set_user_role t id role s = update_user (λ u. record u { role = role }) t id s

pub set_user_status : String → String → String → TenantRegistry → TenantRegistry
unfolding update_user
set_user_status t id status s = update_user (λ u. record u { status = status }) t id s

pub create_invitation : Invitation → TenantRegistry → TenantRegistry
create_invitation inv s = record s { invitations = dict_setdefault s.invitations inv.id inv }

pub get_invitation_by_token : String → TenantRegistry → Option Invitation
get_invitation_by_token sha s =
    find_first (λ inv. str_eq inv.token_sha256 sha) (dict_values s.invitations)

abbrev pub accepted : ℕ → Invitation → Invitation
accepted now inv = record inv { accepted_at = some now }

mark_found : ℕ → String → Option Invitation → TenantRegistry → TenantRegistry
mark_found now id none s = s
mark_found now id (some inv) s =
    if is_none inv.accepted_at
    then record s { invitations = dict_set s.invitations id (accepted now inv) }
    else s

pub mark_invitation_accepted : ℕ → String → TenantRegistry → TenantRegistry
unfolding mark_found
mark_invitation_accepted now id s = mark_found now id (dict_get s.invitations id) s

accept_found :
    ℕ
    → String
    → String
    → String
    → String
    → Option Invitation
    → TenantRegistry
    → TenantRegistry × Bool
accept_found now t user_id id digest none s = (s, false)
accept_found now t user_id id digest (some inv) s =
    if is_none inv.accepted_at
    then (
      set_user_status t user_id "active"
          (set_user_password t user_id digest (mark_invitation_accepted now id s)),
      true,
    )
    else (s, false)

pub accept_invitation :
    ℕ → String → String → String → String → TenantRegistry → TenantRegistry × Bool
unfolding accept_found
accept_invitation now t user_id id digest s =
    accept_found now t user_id id digest (dict_get s.invitations id) s

pub create_api_token : ApiToken → TenantRegistry → TenantRegistry
create_api_token token s = record s { tokens = dict_setdefault s.tokens token.id token }

-- (a.created_at is None, a.created_at) < (b.created_at is None, b.created_at)
abbrev created_before : Option ℕ → Option ℕ → Bool
created_before (some a) (some b) = ltb a b
created_before (some a) none = true
created_before none b = false

-- newest first, and those without a date before all: the order is reversed
pub list_api_tokens : String → TenantRegistry → List ApiToken
list_api_tokens t s =
    sorted (λ a b. created_before b.created_at a.created_at)
      (keep (λ token. str_eq token.tenant_id t) (dict_values s.tokens))

revoke_found : ℕ → String → String → Option ApiToken → TenantRegistry → TenantRegistry
revoke_found now t id none s = s
revoke_found now t id (some token) s =
    if str_eq token.tenant_id t && is_none token.revoked_at
    then record s { tokens = dict_set s.tokens id (record token { revoked_at = some now }) }
    else s

pub revoke_api_token : ℕ → String → String → TenantRegistry → TenantRegistry
unfolding revoke_found
revoke_api_token now t id s = revoke_found now t id (dict_get s.tokens id) s
