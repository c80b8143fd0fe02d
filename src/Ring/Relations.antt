-- ===== src/Ring/Relations.antt =====
-- Equations that hold up to a multiple of something that is zero.
use sqisign_selkie.Prelude.{◌≡◌, refl, ap, ◌∙◌, [], ◌∷◌}
use sqisign_selkie.Ring.{CommRing}
use sqisign_selkie.Ring.Polynomial.{var, nil, ◌⊖◌, ◌⊗◌}
use sqisign_selkie.Ring.Sound.{solve}

module _ (r : CommRing) where
  open r use {Carrier, zero, sub, mul}

  -- A multiple of what is zero is dropped.
  pub sub-multiple : (s n t : Carrier) → n ≡ zero → sub s (mul n t) ≡ s
  sub-multiple s n t h =
      ap (λ u. sub s (mul u t)) h ∙ solve r (var 0 ⊖ nil ⊗ var 1) (var 0) (s ∷ t ∷ []) refl

  -- A multiple of a difference of equal elements is dropped.
  pub sub-difference : (s m n t : Carrier) → m ≡ n → sub s (mul (sub m n) t) ≡ s
  sub-difference s m n t h =
      ap (λ u. sub s (mul (sub u n) t)) h
      ∙ solve r (var 0 ⊖ (var 1 ⊖ var 1) ⊗ var 2) (var 0) (s ∷ n ∷ t ∷ []) refl
