-- ===== src/Security/Sessions.antt =====
-- core/doktok_core/security/sessions.py. PyJWT is a parameter; instants are in microseconds.
use doktok_ng.Prelude.{
  ℕ, ◌+◌, ◌*◌, ◌/◌, ◌≡◌, refl, subst, inl, inr, Bool-cases, Bool, true, false, not, Option, none,
  some, String, arith, str_eq, ltb, leb, if◌then◌else◌,
}
use doktok_ng.Security.Registry.{TokenResolution, jwt}

-- The claims of a token. `exp` is none where `int(payload["exp"])` raises.
pub record Claims : Type 0 where
  pub typ : Option String
  pub sub : String
  pub tenant : String
  pub iat : ℕ
  pub exp : Option ℕ

-- `jwt.encode` and `jwt.decode` with HS256. A decode reads the clock, for the check of `iat`; one that
-- raises is none.
pub record Jwt : Type 0 where
  pub encode : Claims → String → String
  pub decode : String → String → ℕ → Option Claims

-- int(instant.timestamp())
abbrev pub seconds : ℕ → ℕ
seconds instant = instant / 1_000_000

abbrev pub issued_claims : String → String → ℕ → ℕ → Claims
issued_claims tenant_id user_id ttl_seconds now = record {
  typ = some "access";
  sub = user_id;
  tenant = tenant_id;
  iat = seconds now;
  exp = some (seconds (now + ttl_seconds * 1_000_000));
}

abbrev is_access : Option String → Bool
is_access none = false
is_access (some typ) = str_eq typ "access"

-- int(payload["exp"]) <= int(current.timestamp()), or a conversion that raises
abbrev is_expired : Option ℕ → ℕ → Bool
is_expired none now = true
is_expired (some exp) now = leb exp (seconds now)

module _ (lib : Jwt) where
  -- none is the ValueError of an empty secret
  unfoldable pub issue_access_token : String → String → String → ℕ → ℕ → Option String
  issue_access_token tenant_id user_id secret ttl_seconds now =
      if str_eq secret ""
      then none
      else some (lib.encode (issued_claims tenant_id user_id ttl_seconds now) secret)

  check_claims : Option Claims → ℕ → Option TokenResolution
  check_claims none now = none
  check_claims (some c) now =
      if not (is_access c.typ)
      then none
      else if is_expired c.exp now
      then none
      else some (record { tenant_id = c.tenant; user_id = some c.sub; via = jwt; role = none })

  -- now or datetime.now(UTC)
  abbrev current : Option ℕ → ℕ → ℕ
  current none clock = clock
  current (some now) clock = now

  -- with the time that the caller gives, if any, and the clock
  pub decode_access_token : String → String → Option ℕ → ℕ → Option TokenResolution
  unfolding check_claims
  decode_access_token token secret now clock =
      if str_eq secret ""
      then none
      else if str_eq token ""
      then none
      else check_claims (lib.decode token secret clock) (current now clock)

  -- A token that was issued resolves, under the same secret, to its tenant and user from the second
  -- in which it was issued up to, and without, the one in which its time to live ends; before and
  -- after that it resolves to nothing. The time is that of the clock; where the caller gives a time,
  -- this decides on the end and the clock on the start. PyJWT gives back the claims that it encoded,
  -- but raises where they were issued in the future of the clock; and a token is not empty.
  pub decode-issue :
      (tenant_id user_id secret token : String) (ttl_seconds now : ℕ) (given : Option ℕ) (clock : ℕ)
      → issue_access_token tenant_id user_id secret ttl_seconds now ≡ some token
      → lib.decode
          (lib.encode (issued_claims tenant_id user_id ttl_seconds now) secret)
          secret
          clock
        ≡ (if ltb clock (now / 1_000_000 * 1_000_000)
            then none
            else some (issued_claims tenant_id user_id ttl_seconds now))
      → str_eq token "" ≡ false
      → decode_access_token token secret given clock ≡ (
          if ltb clock (now / 1_000_000 * 1_000_000)
          then none
          else if ltb
              (elim given [ none ↦ clock | some time ↦ time ] / 1_000_000)
              (now / 1_000_000 + ttl_seconds)
          then some
              (record { tenant_id = tenant_id; user_id = some user_id; via = jwt; role = none })
          else none)
  unfolding issue_access_token decode_access_token check_claims
  decode-issue tenant_id user_id secret token ttl_seconds now given clock issued law long =
      elim (Bool-cases (str_eq secret "")) [
        | inl e ↦ let h : none ≡ some token = rw e at issued in absurd (cc)
        | inr e ↦
            let c = issued_claims tenant_id user_id ttl_seconds now in
            let h : some (lib.encode c secret) ≡ some token = rw e at issued in
            let made : lib.encode c secret ≡ token = cc in
            let found =
              subst
                (λ x.
                  lib.decode x secret clock
                  ≡ (if ltb clock (now / 1_000_000 * 1_000_000) then none else some c))
                made law in
            rw e (
              rw long (elim (Bool-cases (ltb clock (now / 1_000_000 * 1_000_000))) [
                | inl early ↦
                    let none_yet : lib.decode token secret clock ≡ none = rw early at found in
                    rw none_yet (rw early refl)
                | inr due ↦
                    let there : lib.decode token secret clock ≡ some c = rw due at found in
                    rw there (rw due (in_time given))
              ]))
      ]
    where
      in_time :
          (given : Option ℕ)
          → check_claims
              (some (issued_claims tenant_id user_id ttl_seconds now))
              (current given clock)
            ≡ (if ltb
                  (elim given [ none ↦ clock | some time ↦ time ] / 1_000_000)
                  (now / 1_000_000 + ttl_seconds)
                then some (record {
                  tenant_id = tenant_id;
                  user_id = some user_id;
                  via = jwt;
                  role = none;
                })
                else none)
      in_time none = ground arith
      in_time (some time) = ground arith

  check_claims-via :
      (o : Option Claims) (now : ℕ) (r : TokenResolution)
      → check_claims o now ≡ some r
      → (r.via ≡ jwt) × (r.role ≡ none)
  unfolding check_claims
  check_claims-via none now r h = cc
  check_claims-via (some c) now r h = ground arith

  pub decode_access_token-via :
      (token secret : String) (now : Option ℕ) (clock : ℕ) (r : TokenResolution)
      → decode_access_token token secret now clock ≡ some r
      → r.via ≡ jwt
  unfolding decode_access_token
  decode_access_token-via token secret now clock r h =
      ground (arith, check_claims-via (lib.decode token secret clock) (current now clock) r)
