-- ===== src/Security/Registry/Invitations.antt =====
-- Accepting invitations: core/doktok_core/security/inmemory.py.
use doktok_ng.Prelude.{
  ℕ, ◌≡◌, refl, sym, ap, ◌∙◌, subst, inl, inr, Bool, true, false, Option, none, some, String, arith,
  str_eq_self, Bool-cases, dict_get, dict_set, get-set,
}
use doktok_ng.Security.Registry.{
  User, Invitation, TenantRegistry, is_none, update_found, update_user, set_user_password,
  set_user_status, accepted, mark_found, mark_invitation_accepted, accept_found, accept_invitation,
}

invitations-update_user :
    (f : User → User) (t id : String) (s : TenantRegistry)
    → (update_user f t id s).invitations ≡ s.invitations
unfolding update_user
invitations-update_user f t id s = go (dict_get s.users id)
  where
    go : (o : Option User) → (update_found f t id o s).invitations ≡ s.invitations
    go none = refl
    go (some user) = ground arith

users-mark_accepted :
    (now : ℕ) (id : String) (s : TenantRegistry)
    → (mark_invitation_accepted now id s).users ≡ s.users
unfolding mark_invitation_accepted
users-mark_accepted now id s = go (dict_get s.invitations id)
  where
    go : (o : Option Invitation) → (mark_found now id o s).users ≡ s.users
    go none = refl
    go (some inv) = ground arith

-- The invitation is there, and accepted.
abbrev IsAccepted : Option Invitation → Type 0
IsAccepted none = ⊥
IsAccepted (some inv) = is_none inv.accepted_at ≡ false

module _ (now : ℕ) (t user_id id digest : String) where
  accept_found-IsAccepted :
      (o : Option Invitation) (s s' : TenantRegistry)
      → dict_get s.invitations id ≡ o
      → accept_found now t user_id id digest o s ≡ (s', true)
      → IsAccepted (dict_get s'.invitations id)
  unfolding accept_found mark_invitation_accepted set_user_status set_user_password
  accept_found-IsAccepted none s s' e h = absurd (cc)
  accept_found-IsAccepted (some inv) s s' e h = elim (Bool-cases (is_none inv.accepted_at)) [
    | inr used ↦
        let h' : ◌≡◌ {A = TenantRegistry × Bool} (s, false) (s', true) = rw used at h in absurd (cc)
    | inl fresh ↦
        let marked = mark_invitation_accepted now id s in
        let known = set_user_password t user_id digest marked in
        let done = set_user_status t user_id "active" known in
        let h' : ◌≡◌ {A = TenantRegistry × Bool} (done, true) (s', true) = rw fresh at h in
        let kept =
          invitations-update_user (λ u. record u { status = "active" }) t user_id known
          ∙ invitations-update_user (λ u. record u { password_hash = some digest }) t user_id
              marked in
        let stored : marked.invitations ≡ dict_set s.invitations id (accepted now inv) =
          rw (e, mark_found, fresh) refl in
        subst (λ (r : TenantRegistry). IsAccepted (dict_get r.invitations id)) (ap (λ p. p.0) h')
          (subst (λ d. IsAccepted (dict_get d id)) (sym (kept ∙ stored))
            (rw (get-set s.invitations id id (accepted now inv), str_eq_self id) refl))
  ]

  accept_found-again :
      (o : Option Invitation) (s : TenantRegistry)
      → IsAccepted o
      → accept_found now t user_id id digest o s ≡ (s, false)
  unfolding accept_found
  accept_found-again none s h = absurd h
  accept_found-again (some inv) s h = rw h

-- An invitation that was accepted is not accepted again: a second `accept_invitation` of it, with
-- any user and any password, returns False and changes nothing.
pub accept_invitation-once :
    (now now' : ℕ) (t t' user_id user_id' id digest digest' : String) (s s' : TenantRegistry)
    → accept_invitation now t user_id id digest s ≡ (s', true)
    → accept_invitation now' t' user_id' id digest' s' ≡ (s', false)
unfolding accept_invitation
accept_invitation-once now now' t t' user_id user_id' id digest digest' s s' h =
    accept_found-again now' t' user_id' id digest' (dict_get s'.invitations id) s'
      (accept_found-IsAccepted now t user_id id digest (dict_get s.invitations id) s s' refl h)
