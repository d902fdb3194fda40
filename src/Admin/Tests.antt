-- ===== src/Admin/Tests.antt =====
-- The theorems at a concrete list of roles.
use vpn_platform.Prelude.{◌≡◌, String, List, [], ◌∷◌, ◌&&◌, exists}
use vpn_platform.Admin.Roles.{permissions, allowed}
use vpn_platform.Admin.Roles.Grants.{grants, all_known, allowed-permissions}

abbrev both_roles : List String
both_roles = "security" ∷ "finance_readonly" ∷ []

allowed-permissions_example :
    allowed (permissions both_roles).0 "billing.read"
    ≡ (all_known both_roles && exists (grants "billing.read") both_roles)
allowed-permissions_example = allowed-permissions both_roles "billing.read"
