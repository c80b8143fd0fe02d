-- ===== src/Prelude/Modulo.antt =====
-- Remainders by a bound that is a variable.
use Prim.Native.Nat.{ℕ, ◌+◌, ◌-◌, ◌*◌, ◌%◌, ◌≤◌, ◌<◌}
use mathlib.Core.Path.{◌≡◌, sym, ap, ◌∙◌}
use mathlib.Core.Logic.{inl, inr}
use native.Mathlib.Nat.{mod-eq_of_lt, mod-eq-sub-mod, add-mul-mod_self_left}
use native.Mathlib.Omega.{arith}
use sqisign_selkie.Prelude.Tests.{ltb, ltb→lt, if◌then◌else◌, Bool-cases}

pub mod_once : (x c : ℕ) → 0 < c → x < 2 * c → x % c ≡ (if ltb x c then x else x - c)
mod_once x c pos h = elim (Bool-cases (ltb x c)) [
  | inl less ↦ rw less (mod-eq_of_lt (ltb→lt x c less))
  | inr more ↦
      let rest : c ≤ x = ground arith in
      rw (more, mod-eq-sub-mod rest) (mod-eq_of_lt {n = x - c} {m = c} (omega arith))
]

-- The remainder is the part below the bound.
pub low_is_mod : (low high c total : ℕ) → low + c * high ≡ total → low < c → low ≡ total % c
low_is_mod low high c total e h =
    sym (mod-eq_of_lt h) ∙ sym (add-mul-mod_self_left low c high) ∙ ap (λ t. t % c) e
