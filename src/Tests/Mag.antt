-- ===== src/Tests/Mag.antt =====
-- The limb kernels at two limbs.
use sqisign_selkie.Prelude.{ℕ, ◌^◌, ◌-◌, List, [], ◌∷◌}

abbrev small : List ℕ
small = (2 ^ 64 - 1) ∷ 0 ∷ []

abbrev large : List ℕ
large = 8 ∷ (2 ^ 64 - 1) ∷ []
