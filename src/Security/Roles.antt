-- ===== src/Security/Roles.antt =====
-- core/doktok_core/security/roles.py
use doktok_ng.Prelude.{
  ℕ, ◌≡◌, ◌⊎◌, inl, inr, Bool, true, Option, none, some, String, arith, leb, str_eq, str_eq→eq,
  Bool-cases, if◌then◌else◌,
}

pub data Role : Type 0 where
  viewer editor admin : Role

abbrev pub rank : Role → ℕ
rank viewer = 0
rank editor = 1
rank admin = 2

-- Role(value), with the ValueError of an unknown value caught
pub role_of_text : String → Role
role_of_text value =
    if str_eq value "viewer"
    then viewer
    else if str_eq value "editor"
    then editor
    else if str_eq value "admin"
    then admin
    else viewer

unfoldable pub parse_role : Option String → Role
unfolding role_of_text
parse_role none = viewer
parse_role (some value) = role_of_text value

unfoldable pub role_at_least : Role → Role → Bool
role_at_least role minimum = leb (rank minimum) (rank role)

-- A role meets a minimum that another meets whose rank it reaches; any two roles are comparable,
-- and two that meet each other are the same.
pub role_at_least-IsOrder :
    (a b c : Role)
    → (role_at_least a b ≡ true → role_at_least b c ≡ true → role_at_least a c ≡ true)
      × ((role_at_least a b ≡ true) ⊎ (role_at_least b a ≡ true))
      × (role_at_least a b ≡ true → role_at_least b a ≡ true → a ≡ b)
unfolding role_at_least
role_at_least-IsOrder a b c = ((λ h l. ground arith), ground arith, (λ h l. ground arith))

role_of_text-fail_closed :
    (value : String)
    → role_at_least (role_of_text value) editor ≡ true
    → (value ≡ "editor") ⊎ (value ≡ "admin")
unfolding role_of_text role_at_least
role_of_text-fail_closed value h = elim (Bool-cases (str_eq value "editor")) [
  | inl e ↦ inl (str_eq→eq value "editor" e)
  | inr ne ↦ elim (Bool-cases (str_eq value "admin")) [
    | inl a ↦ inr (str_eq→eq value "admin" a)
    | inr na ↦ absurd (ground arith)
  ]
]

-- A stored role that meets the minimum of a write is spelled "editor" or "admin": whatever else is
-- stored, or nothing, reads as the role that may only read.
pub parse_role-fail_closed :
    (value : Option String)
    → role_at_least (parse_role value) editor ≡ true
    → (value ≡ some "editor") ⊎ (value ≡ some "admin")
unfolding parse_role role_at_least
parse_role-fail_closed none h = cc
parse_role-fail_closed (some value) h = elim (role_of_text-fail_closed value h) [
  | inl e ↦ inl (cc)
  | inr a ↦ inr (cc)
]
