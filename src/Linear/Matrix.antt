-- ===== src/Linear/Matrix.antt =====
-- 4×4 matrices of values: src/quaternions/linear/matrix.rs. Rows and columns are counted from 0; the
-- indices of the source are constants below 4, so the last clause of an access is index 3.
pub mod Values
pub mod Adjugate
pub mod Cofactors
use sqisign_selkie.Prelude.{ℕ, zero, suc, ◌+◌, ◌%◌, Bool, ◌&&◌, ◌==◌, if◌then◌else◌}
use sqisign_selkie.BigInt.{BigInt, big_zero, big_one, wrapping_neg}
use sqisign_selkie.BigInt.Add.{vt_add, vt_sub}
use sqisign_selkie.BigInt.Mul.{vt_mul}
use sqisign_selkie.Linear.Vector.{Vector, vector_zero, dot, eq}

pub record Matrix : Type 0 where
  pub r0 : Vector
  pub r1 : Vector
  pub r2 : Vector
  pub r3 : Vector

-- `v[i]`
abbrev pub coord : Vector → ℕ → BigInt
coord v zero = v.a
coord v (suc zero) = v.b
coord v (suc (suc zero)) = v.c
coord v (suc (suc (suc i))) = v.d

-- `m[i]`
abbrev pub row : Matrix → ℕ → Vector
row m zero = m.r0
row m (suc zero) = m.r1
row m (suc (suc zero)) = m.r2
row m (suc (suc (suc i))) = m.r3

-- `m[i][j]`
abbrev pub entry : Matrix → ℕ → ℕ → BigInt
entry m i j = coord (row m i) j

abbrev pub matrix_zero : ℕ → Matrix
matrix_zero n = record {
  r0 = vector_zero n;
  r1 = vector_zero n;
  r2 = vector_zero n;
  r3 = vector_zero n;
}

abbrev pub identity : ℕ → Matrix
identity n =
    let o = big_zero n in
    let i = big_one n in
    record {
      r0 = record { a = i; b = o; c = o; d = o };
      r1 = record { a = o; b = i; c = o; d = o };
      r2 = record { a = o; b = o; c = i; d = o };
      r3 = record { a = o; b = o; c = o; d = i };
    }

unfoldable pub column : Matrix → ℕ → Vector
column m c = record { a = coord m.r0 c; b = coord m.r1 c; c = coord m.r2 c; d = coord m.r3 c }

unfoldable pub transpose : Matrix → Matrix
transpose m = record {
  r0 = record { a = m.r0.a; b = m.r1.a; c = m.r2.a; d = m.r3.a };
  r1 = record { a = m.r0.b; b = m.r1.b; c = m.r2.b; d = m.r3.b };
  r2 = record { a = m.r0.c; b = m.r1.c; c = m.r2.c; d = m.r3.c };
  r3 = record { a = m.r0.d; b = m.r1.d; c = m.r2.d; d = m.r3.d };
}

unfoldable pub eval : ℕ → Matrix → Vector → Vector
eval n m v = record { a = dot n m.r0 v; b = dot n m.r1 v; c = dot n m.r2 v; d = dot n m.r3 v }

unfoldable pub eval_left : ℕ → Matrix → Vector → Vector
eval_left n m v = eval n (transpose m) v

unfoldable pub mat_mul : ℕ → Matrix → Matrix → Matrix
mat_mul n m rhs =
    let rt = transpose rhs in
    let row_by : Vector → Vector =
      λ u. record { a = dot n u rt.r0; b = dot n u rt.r1; c = dot n u rt.r2; d = dot n u rt.r3 } in
    record { r0 = row_by m.r0; r1 = row_by m.r1; r2 = row_by m.r2; r3 = row_by m.r3 }

-- The determinant on the rows `r0`, `r1`, `r2` and the columns `c0`, `c1`, `c2`: `minor3`, and the
-- closure of `det`.
abbrev pub minor3 : Matrix → ℕ × ℕ × ℕ → ℕ × ℕ × ℕ → BigInt
minor3 m (r0, r1, r2) (c0, c1, c2) =
    vt_add
      (vt_sub
        (vt_mul (entry m r0 c0) (
          vt_sub (vt_mul (entry m r1 c1) (entry m r2 c2)) (vt_mul (entry m r1 c2) (entry m r2 c1))))
        (vt_mul (entry m r0 c1) (
          vt_sub (vt_mul (entry m r1 c0) (entry m r2 c2))
            (vt_mul (entry m r1 c2) (entry m r2 c0)))))
      (vt_mul (entry m r0 c2)
        (vt_sub (vt_mul (entry m r1 c0) (entry m r2 c1)) (vt_mul (entry m r1 c1) (entry m r2 c0))))

unfoldable pub det : Matrix → BigInt
det m =
    vt_sub
      (vt_add
        (vt_sub (vt_mul (entry m 0 0) (minor3 m (1, 2, 3) (1, 2, 3)))
          (vt_mul (entry m 0 1) (minor3 m (1, 2, 3) (0, 2, 3))))
        (vt_mul (entry m 0 2) (minor3 m (1, 2, 3) (0, 1, 3))))
      (vt_mul (entry m 0 3) (minor3 m (1, 2, 3) (0, 1, 2)))

-- The three indices other than `i`.
abbrev pub others : ℕ → ℕ × ℕ × ℕ
others zero = (1, 2, 3)
others (suc zero) = (0, 2, 3)
others (suc (suc zero)) = (0, 1, 3)
others (suc (suc (suc i))) = (0, 1, 2)

-- One round of the loops of `adjugate`: the entry in row `j` and column `i` of the result.
abbrev pub adjugate_entry : Matrix → ℕ → ℕ → BigInt
adjugate_entry m i j =
    let m3 = minor3 m (others i) (others j) in if (i + j) % 2 == 0 then m3 else wrapping_neg m3

unfoldable pub adjugate : Matrix → Matrix
adjugate m =
    let row_at : ℕ → Vector = λ j. record {
      a = adjugate_entry m 0 j;
      b = adjugate_entry m 1 j;
      c = adjugate_entry m 2 j;
      d = adjugate_entry m 3 j;
    } in
    record { r0 = row_at 0; r1 = row_at 1; r2 = row_at 2; r3 = row_at 3 }

-- The minor of the rows `r` and `s` and the columns `c` and `d`.
abbrev pub minor2 : Matrix → ℕ → ℕ → ℕ → ℕ → BigInt
minor2 m r s c d = vt_sub (vt_mul (entry m r c) (entry m s d)) (vt_mul (entry m r d) (entry m s c))

-- `x·t − y·u + z·v` and `x·t − y·u − z·v`.
abbrev pub minus_plus : BigInt → BigInt → BigInt → BigInt → BigInt → BigInt → BigInt
minus_plus x t y u z v = vt_add (vt_sub (vt_mul x t) (vt_mul y u)) (vt_mul z v)

abbrev pub minus_minus : BigInt → BigInt → BigInt → BigInt → BigInt → BigInt → BigInt
minus_minus x t y u z v = vt_sub (vt_sub (vt_mul x t) (vt_mul y u)) (vt_mul z v)

-- The cofactors of a row of the matrix from the entries of the row beside it and the minors of the
-- other two rows: the row with the signs +, −, +, −, and the one with −, +, −, +.
abbrev pub cofactors_even : Matrix → ℕ → ℕ → ℕ → Vector
cofactors_even m i r s =
    let e = entry m i in
    let t = minor2 m r s in
    record {
      a = minus_plus (e 1) (t 2 3) (e 2) (t 1 3) (e 3) (t 1 2);
      b = minus_minus (e 2) (t 0 3) (e 0) (t 2 3) (e 3) (t 0 2);
      c = minus_plus (e 0) (t 1 3) (e 1) (t 0 3) (e 3) (t 0 1);
      d = minus_minus (e 1) (t 0 2) (e 0) (t 1 2) (e 2) (t 0 1);
    }

abbrev pub cofactors_odd : Matrix → ℕ → ℕ → ℕ → Vector
cofactors_odd m i r s =
    let e = entry m i in
    let t = minor2 m r s in
    record {
      a = minus_minus (e 2) (t 1 3) (e 1) (t 2 3) (e 3) (t 1 2);
      b = minus_plus (e 0) (t 2 3) (e 2) (t 0 3) (e 3) (t 0 2);
      c = minus_minus (e 1) (t 0 3) (e 0) (t 1 3) (e 3) (t 0 1);
      d = minus_plus (e 0) (t 1 2) (e 1) (t 0 2) (e 2) (t 0 1);
    }

unfoldable pub cofactor_and_det : Matrix → Matrix × BigInt
cofactor_and_det m =
    let s = minor2 m 0 1 in
    let t = minor2 m 2 3 in
    let det =
      vt_add
        (vt_sub
          (vt_add
            (vt_add (vt_sub (vt_mul (s 0 1) (t 2 3)) (vt_mul (s 0 2) (t 1 3)))
              (vt_mul (s 0 3) (t 1 2)))
            (vt_mul (s 1 2) (t 0 3)))
          (vt_mul (s 1 3) (t 0 2)))
        (vt_mul (s 2 3) (t 0 1)) in
    (
      record {
        r0 = cofactors_even m 1 2 3;
        r1 = cofactors_odd m 0 2 3;
        r2 = cofactors_even m 3 0 1;
        r3 = cofactors_odd m 2 0 1;
      },
      det,
    )

unfoldable pub from_columns : Vector → Vector → Vector → Vector → Matrix
from_columns c0 c1 c2 c3 = record {
  r0 = record { a = c0.a; b = c1.a; c = c2.a; d = c3.a };
  r1 = record { a = c0.b; b = c1.b; c = c2.b; d = c3.b };
  r2 = record { a = c0.c; b = c1.c; c = c2.c; d = c3.c };
  r3 = record { a = c0.d; b = c1.d; c = c2.d; d = c3.d };
}

unfoldable pub columns : Matrix → Vector × Vector × Vector × Vector
columns m = (
  record { a = m.r0.a; b = m.r1.a; c = m.r2.a; d = m.r3.a },
  record { a = m.r0.b; b = m.r1.b; c = m.r2.b; d = m.r3.b },
  record { a = m.r0.c; b = m.r1.c; c = m.r2.c; d = m.r3.c },
  record { a = m.r0.d; b = m.r1.d; c = m.r2.d; d = m.r3.d },
)

unfoldable pub matrix_eq : Matrix → Matrix → Bool
matrix_eq m o = eq m.r0 o.r0 && eq m.r1 o.r1 && eq m.r2 o.r2 && eq m.r3 o.r3
