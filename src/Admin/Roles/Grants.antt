-- ===== src/Admin/Roles/Grants.antt =====
-- What a caller with several roles may do.
use vpn_platform.Prelude.{
  ◌≡◌, ap, String, Bool, true, false, ◌&&◌, ◌||◌, Option, none, some, List, [], ◌∷◌, ◌==◌, ==_iff,
  exists, arith, is_some, inl, inr, Bool-cases, Option-cases,
}
use vpn_platform.Prelude.Tables.{exists-sort_by}
use vpn_platform.Admin.Roles.{
  role_permissions, add_all, collect, add_one, permissions, allowed, text_before,
}

-- The role by itself has the permission.
pub grants : String → String → Bool
grants p role = elim (role_permissions role) [ none ↦ false | some ps ↦ exists (λ q. q == p) ps ]

pub all_known : List String → Bool
all_known [] = true
all_known (r ∷ rs) = is_some (role_permissions r) && all_known rs

exists-add_one :
    (p q : String) (seen : List String)
    → exists (λ x. x == p) (add_one q seen) ≡ (exists (λ x. x == p) seen || (q == p))
unfolding exists
exists-add_one p q seen = elim (Bool-cases (q == p)) [
  | inl e ↦
      let same : exists (λ x. x == q) seen ≡ exists (λ x. x == p) seen =
        ap (λ t. exists (λ x. x == t) seen) ((==_iff q p).0 e) in
      ground (arith, e, same)
  | inr e ↦ ground (arith, e)
]

exists-add_all :
    (p : String) (ps seen : List String)
    → exists (λ q. q == p) (add_all ps seen)
      ≡ (exists (λ q. q == p) seen || exists (λ q. q == p) ps)
unfolding add_all exists
exists-add_all p [] seen = ground arith
exists-add_all p (q ∷ ps) seen =
    ground (arith, exists-add_all p ps (add_one q seen), exists-add_one p q seen)

abbrev has : Option (List String) → String → Bool
has none p = false
has (some seen) p = exists (λ q. q == p) seen

has-collect :
    (p : String) (roles seen : List String)
    → has (collect roles seen) p
      ≡ (all_known roles && (exists (λ q. q == p) seen || exists (grants p) roles))
unfolding collect exists all_known grants
has-collect p [] seen = ground arith
has-collect p (r ∷ rs) seen = elim (Option-cases (role_permissions r)) [
  | inl e ↦ ground (arith, e)
  | inr (ps, e) ↦ ground (arith, e, has-collect p rs (add_all ps seen), exists-add_all p ps seen)
]

-- A list of roles allows a permission exactly where every role is known and one of them grants it; an
-- unknown role takes everything away.
pub allowed-permissions :
    (roles : List String) (p : String)
    → allowed (permissions roles).0 p ≡ (all_known roles && exists (grants p) roles)
unfolding permissions allowed exists
allowed-permissions roles p = elim (Option-cases (collect roles [])) [
  | inl e ↦ ground (arith, has-collect p roles [], e)
  | inr (seen, e) ↦
      ground (arith, has-collect p roles [], e, exists-sort_by (λ x. x == p) text_before seen)
]
