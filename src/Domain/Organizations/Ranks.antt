-- ===== src/Domain/Organizations/Ranks.antt =====
-- `OrganizationRole.may_assign` as an order on roles.
use muxivo_console.Shared.{true, false, ◌≡◌, ◌⊎◌, arith}
use muxivo_console.Domain.Organizations.{OrganizationRole, may_assign}

-- Of two roles exactly one of these holds: the first may assign the second, the second may
-- assign the first, or they are equal; so no role assigns itself, and no two assign one another.
pub may_assign_trichotomy :
    (r s : OrganizationRole)
    → ((may_assign r s ≡ true) × (may_assign s r ≡ false) × ¬ (r ≡ s))
      ⊎ ((may_assign r s ≡ false) × (may_assign s r ≡ true) × ¬ (r ≡ s))
      ⊎ ((may_assign r s ≡ false) × (may_assign s r ≡ false) × (r ≡ s))
unfolding may_assign
may_assign_trichotomy r s = ground arith
