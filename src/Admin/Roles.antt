-- ===== src/Admin/Roles.antt =====
-- services/admin/internal/rbac/rbac.go.
pub mod Grants
use vpn_platform.Prelude.{
  ℕ, String, Bool, true, false, not, Option, none, some, List, [], ◌∷◌, ◌++◌, ◌==◌, if◌then◌else◌,
  exists, sort_by,
}
use vpn_platform.Prelude.Text.{codes, ltb_codes}

abbrev reads : List String
reads =
    "identity.read" ∷ "consent.read" ∷ "subscription.read" ∷ "access.read" ∷ "provisioning.read"
    ∷ "notification.read" ∷ "notification.dlq.read" ∷ "health.read" ∷ "audit.read" ∷ []

-- The map `rolePermissions`.
unfoldable pub role_permissions : String → Option (List String)
role_permissions role =
    if role == "support_readonly"
    then some reads
    else if role == "operations"
    then some
        (reads ++ "notification.retry" ∷ "subscription.revoke" ∷ "access.provisioning.recover" ∷ [])
    else if role == "security"
    then some ("identity.read" ∷ "notification.dlq.read" ∷ "health.read" ∷ "audit.read" ∷ [])
    else if role == "finance_readonly"
    then some ("billing.read" ∷ "health.read" ∷ [])
    else none

-- `seen[permission] = struct{}{}`, on a set as a list.
abbrev pub add_one : String → List String → List String
add_one p seen = if exists (λ q. q == p) seen then seen else p ∷ seen

unfoldable pub add_all : List String → List String → List String
add_all [] seen = seen
add_all (p ∷ ps) seen = add_all ps (add_one p seen)

-- The loop over the roles: an unknown one ends it.
unfoldable pub collect : List String → List String → Option (List String)
collect [] seen = some seen
collect (r ∷ rs) seen = elim (role_permissions r) [
  | none ↦ none
  | some ps ↦ collect rs (add_all ps seen)
]

abbrev pub text_before : String → String → Bool
text_before a b = ltb_codes (codes a) (codes b)

abbrev is_empty : List String → Bool
is_empty [] = true
is_empty (p ∷ ps) = false

abbrev permissions_of : Option (List String) → List String × Bool
permissions_of none = ([], false)
permissions_of (some seen) = (sort_by text_before seen, not (is_empty seen))

-- `Permissions`, with an empty list for nil.
unfoldable pub permissions : List String → List String × Bool
permissions roles = permissions_of (collect roles [])

-- `Allowed`.
unfoldable pub allowed : List String → String → Bool
allowed permissions required = exists (λ p. p == required) permissions
