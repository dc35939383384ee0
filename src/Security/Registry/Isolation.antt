-- ===== src/Security/Registry/Isolation.antt =====
-- The writes of one tenant and the entries of others: core/doktok_core/security/inmemory.py.
use doktok_ng.Prelude.{
  ℕ, ◌≡◌, refl, ap, ◌∙◌, inl, inr, not, ◌&&◌, Option, none, some, List, [], ◌∷◌, String, str_eq,
  Bool-cases, &&_parts, keep, dict_get, dict_values, keep-values-set, keep-values-setdefault,
  str_eq_self,
}
use doktok_ng.Security.Registry.{
  User, ApiToken, Invitation, TenantRegistry, is_none, owns_user, update_found, update_user,
  set_user_password, set_user_role, set_user_status, mark_found, mark_invitation_accepted,
  accept_found, accept_invitation, revoke_found, revoke_api_token, create_user, create_api_token,
}

-- The calls that write users or tokens: of the tenant that is given, or, for those that take a whole
-- row, of the tenant that stands in the row.
pub data TenantCall : Type 0 where
  new_user : User → TenantCall
  new_token : ApiToken → TenantCall
  password : String → String → TenantCall
  role : String → String → TenantCall
  status : String → String → TenantCall
  accept : ℕ → String → String → String → TenantCall
  revoke : ℕ → String → TenantCall

pub tenant_call : String → TenantCall → TenantRegistry → TenantRegistry
tenant_call t (new_user user) s = create_user (record user { tenant_id = t }) s
tenant_call t (new_token token) s = create_api_token (record token { tenant_id = t }) s
tenant_call t (password id digest) s = set_user_password t id digest s
tenant_call t (role id r) s = set_user_role t id r s
tenant_call t (status id st) s = set_user_status t id st s
tenant_call t (accept now user_id id digest) s = (accept_invitation now t user_id id digest s).0
tenant_call t (revoke now id) s = revoke_api_token now t id s

pub tenant_calls : String → List TenantCall → TenantRegistry → TenantRegistry
tenant_calls t [] s = s
tenant_calls t (c ∷ cs) s = tenant_calls t cs (tenant_call t c s)

-- What a registry holds of the other tenants' users and tokens.
abbrev pub other_users : String → TenantRegistry → List User
other_users t s = keep (λ u. not (owns_user t u)) (dict_values s.users)

abbrev pub other_tokens : String → TenantRegistry → List ApiToken
other_tokens t s = keep (λ (k : ApiToken). not (str_eq k.tenant_id t)) (dict_values s.tokens)

record SameOthers (t : String) (s s' : TenantRegistry) : Type 0 where
  users : other_users t s' ≡ other_users t s
  tokens : other_tokens t s' ≡ other_tokens t s

SameOthers-refl : (t : String) (s : TenantRegistry) → SameOthers t s s
SameOthers-refl t s = record { users = refl; tokens = refl }

SameOthers-trans :
    {t : String} {a b c : TenantRegistry} → SameOthers t a b → SameOthers t b c → SameOthers t a c
SameOthers-trans h l = record { users = l.users ∙ h.users; tokens = l.tokens ∙ h.tokens }

module _ (t : String) where
  update_user-SameOthers :
      (f : User → User) (id : String) (s : TenantRegistry)
      → ((u : User) → (f u).tenant_id ≡ u.tenant_id)
      → SameOthers t s (update_user f t id s)
  unfolding update_user
  update_user-SameOthers f id s keeps = go (dict_get s.users id) refl
    where
      go : (o : Option User) → dict_get s.users id ≡ o → SameOthers t s (update_found f t id o s)
      go none e = SameOthers-refl t s
      go (some u) e = elim (Bool-cases (owns_user t u)) [
        | inl own ↦ rw own (record {
          users =
              keep-values-set (λ v. not (owns_user t v)) s.users id (f u) u e (rw own)
                (rw (keeps u, own));
          tokens = refl;
        })
        | inr other ↦ rw other (SameOthers-refl t s)
      ]

  set_user_password-SameOthers :
      (id digest : String) (s : TenantRegistry) → SameOthers t s (set_user_password t id digest s)
  unfolding set_user_password
  set_user_password-SameOthers id digest s =
      update_user-SameOthers (λ u. record u { password_hash = some digest }) id s (λ u. refl)

  set_user_status-SameOthers :
      (id st : String) (s : TenantRegistry) → SameOthers t s (set_user_status t id st s)
  unfolding set_user_status
  set_user_status-SameOthers id st s =
      update_user-SameOthers (λ u. record u { status = st }) id s (λ u. refl)

  mark_accepted-SameOthers :
      (now : ℕ) (id : String) (s : TenantRegistry)
      → SameOthers t s (mark_invitation_accepted now id s)
  unfolding mark_invitation_accepted
  mark_accepted-SameOthers now id s = go (dict_get s.invitations id)
    where
      go : (o : Option Invitation) → SameOthers t s (mark_found now id o s)
      go none = SameOthers-refl t s
      go (some inv) = elim (Bool-cases (is_none inv.accepted_at)) [
        | inl fresh ↦ rw fresh (record { users = refl; tokens = refl })
        | inr used ↦ rw used (SameOthers-refl t s)
      ]

  accept-SameOthers :
      (now : ℕ) (user_id id digest : String) (s : TenantRegistry)
      → SameOthers t s (accept_invitation now t user_id id digest s).0
  unfolding accept_invitation
  accept-SameOthers now user_id id digest s = go (dict_get s.invitations id)
    where
      go : (o : Option Invitation) → SameOthers t s (accept_found now t user_id id digest o s).0
      go none = SameOthers-refl t s
      go (some inv) = elim (Bool-cases (is_none inv.accepted_at)) [
        | inl fresh ↦
            let marked = mark_invitation_accepted now id s in
            let known = set_user_password t user_id digest marked in
            rw fresh (
              SameOthers-trans (mark_accepted-SameOthers now id s) (
                SameOthers-trans (set_user_password-SameOthers user_id digest marked)
                  (set_user_status-SameOthers user_id "active" known)))
        | inr used ↦ rw used (SameOthers-refl t s)
      ]

  revoke-SameOthers :
      (now : ℕ) (id : String) (s : TenantRegistry) → SameOthers t s (revoke_api_token now t id s)
  unfolding revoke_api_token
  revoke-SameOthers now id s = go (dict_get s.tokens id) refl
    where
      go :
          (o : Option ApiToken)
          → dict_get s.tokens id ≡ o
          → SameOthers t s (revoke_found now t id o s)
      go none e = SameOthers-refl t s
      go (some k) e = elim (Bool-cases (str_eq k.tenant_id t && is_none k.revoked_at)) [
        | inl live ↦
            let own = (&&_parts _ _ live).0 in
            rw live (record {
              users = refl;
              tokens =
                  keep-values-set (λ (x : ApiToken). not (str_eq x.tenant_id t)) s.tokens id
                    (record k { revoked_at = some now }) k e (ap not own) (ap not own);
            })
        | inr other ↦ rw other (SameOthers-refl t s)
      ]

  create_user-SameOthers :
      (user : User) (s : TenantRegistry) → user.tenant_id ≡ t → SameOthers t s (create_user user s)
  unfolding create_user
  create_user-SameOthers user s own = record {
    users =
        keep-values-setdefault (λ u. not (owns_user t u)) s.users user.id user
          (rw own (ap not (str_eq_self t)));
    tokens = refl;
  }

  create_api_token-SameOthers :
      (token : ApiToken) (s : TenantRegistry)
      → token.tenant_id ≡ t
      → SameOthers t s (create_api_token token s)
  unfolding create_api_token
  create_api_token-SameOthers token s own = record {
    users = refl;
    tokens =
        keep-values-setdefault (λ (k : ApiToken). not (str_eq k.tenant_id t)) s.tokens token.id
          token (rw own (ap not (str_eq_self t)));
  }

  tenant_call-SameOthers :
      (c : TenantCall) (s : TenantRegistry) → SameOthers t s (tenant_call t c s)
  unfolding tenant_call set_user_role
  tenant_call-SameOthers (new_user user) s =
      create_user-SameOthers (record user { tenant_id = t }) s refl
  tenant_call-SameOthers (new_token token) s =
      create_api_token-SameOthers (record token { tenant_id = t }) s refl
  tenant_call-SameOthers (password id digest) s = set_user_password-SameOthers id digest s
  tenant_call-SameOthers (role id r) s =
      update_user-SameOthers (λ u. record u { role = r }) id s (λ u. refl)
  tenant_call-SameOthers (status id st) s = set_user_status-SameOthers id st s
  tenant_call-SameOthers (accept now user_id id digest) s =
      accept-SameOthers now user_id id digest s
  tenant_call-SameOthers (revoke now id) s = revoke-SameOthers now id s

  tenant_calls-SameOthers :
      (cs : List TenantCall) (s : TenantRegistry) → SameOthers t s (tenant_calls t cs s)
  unfolding tenant_calls
  tenant_calls-SameOthers [] s = SameOthers-refl t s
  tenant_calls-SameOthers (c ∷ cs) s =
      SameOthers-trans (tenant_call-SameOthers c s) (tenant_calls-SameOthers cs (tenant_call t c s))

  -- No sequence of user and token writes of a tenant (creating a user or a token for it, password,
  -- role, status, accepting an invitation, revoking a token), whatever the ids that it names, changes,
  -- adds or drops a user or an API token of another tenant.
  pub tenant_calls-isolated :
      (cs : List TenantCall) (s : TenantRegistry)
      → (other_users t (tenant_calls t cs s) ≡ other_users t s)
        × (other_tokens t (tenant_calls t cs s) ≡ other_tokens t s)
  tenant_calls-isolated cs s = let same = tenant_calls-SameOthers cs s in (same.users, same.tokens)
