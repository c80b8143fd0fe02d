-- ===== src/Tests/Fields.antt =====
-- The theorems on the quadratic extension at elements of the field with nine elements.
use sqisign_selkie.Prelude.{◌≡◌, ◌≢◌, refl, ap, true}
use sqisign_selkie.Fields.Fp2.{Fp2, new, zero, square, norm, is_square, sqrt, from_fp, root_is_odd}
use sqisign_selkie.Fields.Fp2.Root.{square-sqrt, sqrt-real}
use sqisign_selkie.Fields.Fp2.Roundtrip.{sqrt-square}
use sqisign_selkie.Tests.Field3.{f0, f1, f2}
use sqisign_selkie.Tests.Instances.{fp3}

abbrev one_i : Fp2 fp3
one_i = new fp3 f1 f1

abbrev minus_i : Fp2 fp3
minus_i = new fp3 f0 f2

one_i_ne_zero : one_i ≢ zero fp3
one_i_ne_zero e = let g : f1 ≡ f0 = ap (λ t. t.a) e in cc

square-sqrt_example : square fp3 (sqrt fp3 (from_fp fp3 f1)) ≡ from_fp fp3 f1
unfolding is_square norm
square-sqrt_example = square-sqrt fp3 (from_fp fp3 f1) refl (λ e. cc)

sqrt-square_example : sqrt fp3 (square fp3 (new fp3 f2 f0)) ≡ new fp3 f2 f0
unfolding is_square norm square root_is_odd
sqrt-square_example = sqrt-square fp3 (new fp3 f2 f0) refl refl (λ e. cc)

sqrt-real_example :
    (is_square fp3 (from_fp fp3 f2) ≡ true)
    × (sqrt fp3 (from_fp fp3 f2) ≡ zero fp3)
    × (square fp3 (sqrt fp3 (from_fp fp3 f2)) ≢ from_fp fp3 f2)
unfolding norm
sqrt-real_example = sqrt-real fp3 (from_fp fp3 f2) refl (λ e. cc) refl
