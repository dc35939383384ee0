-- ===== src/Security/Policy.antt =====
-- core/doktok_core/security/policy.py
use doktok_ng.Prelude.{
  ℕ, ◌*◌, ◌≤◌, ◌≡◌, ◌↔◌, Bool, true, false, List, [], ◌∷◌, String, arith, str_eq, ltb, any,
  if◌then◌else◌,
}

pub data SecurityDecision : Type 0 where
  allow quarantine reject : SecurityDecision

pub record SecurityPolicy : Type 0 where
  pub max_file_bytes : ℕ
  pub allowed : List String
  pub dangerous : List String

abbrev pub contains : List String → String → Bool
contains set mime = any (λ m. str_eq m mime) set

abbrev pub default_allowed_mimes : List String
default_allowed_mimes =
    "text/plain" ∷ "text/markdown" ∷ "application/pdf" ∷ "image/png" ∷ "image/jpeg" ∷ "image/tiff"
    ∷ "image/webp" ∷ "application/vnd.openxmlformats-officedocument.wordprocessingml.document"
    ∷ "application/vnd.openxmlformats-officedocument.spreadsheetml.sheet"
    ∷ "application/vnd.openxmlformats-officedocument.presentationml.presentation" ∷ []

abbrev pub default_dangerous_mimes : List String
default_dangerous_mimes =
    "application/x-dosexec" ∷ "application/x-mach-binary" ∷ "application/x-executable"
    ∷ "application/x-sharedlib" ∷ "application/x-msdownload" ∷ "application/x-elf"
    ∷ "application/zip" ∷ "application/x-tar" ∷ "application/gzip" ∷ "application/x-7z-compressed"
    ∷ "application/x-rar" ∷ "application/java-archive" ∷ []

-- DefaultSecurityPolicy(max_file_mb=..., allowed_mimes=..., dangerous_mimes=...)
pub new_policy : ℕ → List String → List String → SecurityPolicy
new_policy max_file_mb allowed dangerous = record {
  max_file_bytes = max_file_mb * 1024 * 1024;
  allowed = allowed;
  dangerous = dangerous;
}

pub decide : SecurityPolicy → String → ℕ → SecurityDecision
decide p mime size_bytes =
    if ltb p.max_file_bytes size_bytes
    then reject
    else if contains p.dangerous mime
    then quarantine
    else if contains p.allowed mime
    then allow
    else reject

abbrev is_allow : SecurityDecision → Bool
is_allow allow = true
is_allow _ = false

pub is_allowed : SecurityPolicy → String → ℕ → Bool
unfolding decide
is_allowed p mime size_bytes = is_allow (decide p mime size_bytes)

-- A file is accepted exactly when its size is within the bound of the policy in megabytes, its type
-- is in the allowlist, and its type is not in the list of dangerous ones, whatever the allowlist
-- says.
pub is_allowed_iff :
    (max_file_mb : ℕ) (allowed dangerous : List String) (mime : String) (size_bytes : ℕ)
    → (is_allowed (new_policy max_file_mb allowed dangerous) mime size_bytes ≡ true) ↔ (
        (size_bytes ≤ max_file_mb * 1024 * 1024)
        × (contains allowed mime ≡ true)
        × (contains dangerous mime ≡ false))
unfolding is_allowed new_policy
is_allowed_iff max_file_mb allowed dangerous mime size_bytes =
    ((λ h. ground arith), (λ h. ground arith))
