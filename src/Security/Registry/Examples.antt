-- ===== src/Security/Registry/Examples.antt =====
-- The claims at a registry of two tenants.
use doktok_ng.Prelude.{◌≡◌, refl, true, false, none, some, List, [], ◌∷◌, String}
use doktok_ng.Security.Registry.{
  User, ApiToken, Invitation, TenantRegistry, resolve_token, revoke_api_token, accept_invitation,
}
use doktok_ng.Security.Registry.Isolation.{
  TenantCall, new_user, new_token, password, role, accept, revoke, tenant_calls, other_users,
  other_tokens, tenant_calls-isolated,
}
use doktok_ng.Security.Registry.Invitations.{accept_invitation-once}
use doktok_ng.Security.Registry.Reads.{revoke_api_token-blocks}

abbrev user : String → String → User
user id t = record {
  id = id;
  tenant_id = t;
  email = "a@b.c";
  display_name = "";
  status = "invited";
  role = "viewer";
  password_hash = some "old";
  created_at = none;
}

abbrev token : String → String → String → ApiToken
token id t sha = record {
  id = id;
  tenant_id = t;
  user_id = none;
  token_sha256 = sha;
  token_prefix = "";
  name = "";
  role = "editor";
  created_at = some 1;
  last_used_at = none;
  revoked_at = none;
}

abbrev invitation : Invitation
invitation = record {
  id = "i1";
  tenant_id = "acme";
  user_id = "u1";
  email = "a@b.c";
  role = "viewer";
  token_sha256 = "cafe";
  expires_at = 100;
  created_at = none;
  accepted_at = none;
}

abbrev registry : TenantRegistry
registry = record {
  tenants = [];
  users = ("u1", user "u1" "acme") ∷ ("u2", user "u2" "other") ∷ [];
  tokens = ("t1", token "t1" "acme" "beef") ∷ ("t2", token "t2" "other" "f00d") ∷ [];
  invitations = ("i1", invitation) ∷ [];
}

abbrev same : String → String
same s = s

revoke_api_token-blocks_example :
    resolve_token "beef" (revoke_api_token 9 "acme" "t1" registry) ≡ none
revoke_api_token-blocks_example =
    revoke_api_token-blocks 9 "acme" "t1" (token "t1" "acme" "beef") registry refl refl
      ((refl, tt), (tt, tt)) ((λ h. refl), ((λ h. cc), tt))

abbrev accepted_registry : TenantRegistry
accepted_registry = (accept_invitation 5 "acme" "u1" "i1" "new" registry).0

first_accept : accept_invitation 5 "acme" "u1" "i1" "new" registry ≡ (accepted_registry, true)
unfolding accept_invitation
first_accept = refl

accept_invitation-once_example :
    accept_invitation 6 "acme" "u2" "i1" "mine" accepted_registry ≡ (accepted_registry, false)
accept_invitation-once_example =
    accept_invitation-once 5 6 "acme" "acme" "u1" "u2" "i1" "new" "mine" registry accepted_registry
      first_accept

abbrev writes : List TenantCall
writes =
    new_user (user "u2" "acme")
    ∷ new_user (user "u9" "acme")
    ∷ new_token (token "t2" "acme" "cafe")
    ∷ password "u2" "stolen"
    ∷ role "u2" "admin"
    ∷ accept 5 "u2" "i1" "x"
    ∷ revoke 9 "t2"
    ∷ []

tenant_calls-isolated_example :
    (other_users "acme" (tenant_calls "acme" writes registry) ≡ other_users "acme" registry)
    × (other_tokens "acme" (tenant_calls "acme" writes registry) ≡ other_tokens "acme" registry)
tenant_calls-isolated_example = tenant_calls-isolated "acme" writes registry
