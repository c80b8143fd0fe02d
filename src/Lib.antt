-- ===== src/Lib.antt =====
-- A verification library of sqisign-selkie: the fixed-width signed integers on which the quaternion
-- layer of the signature scheme stands (src/quaternions/bigint.rs and the files below
-- src/quaternions/bigint/; `BigInt<N>` is a sign flag and a little-endian array of `N` words), and
-- the quadratic extension field with the Montgomery curves over it (src/fields/fp2,
-- src/curves/montgomery and the isogenies of src/curves/isogeny), the matrices and the quaternion
-- algebra over those integers (src/quaternions/linear, src/quaternions/algebra), and the
-- (2,2)-isogenies of surfaces in theta coordinates (src/surfaces).
--
-- The parts, from the bottom up. An operation has the name of the function that it models, and its
-- loops the name of their function with `_loop`.
--   * Prelude: shared names, Boolean tests, lists, well-founded recursion, remainders. Bits: laws of
--     `&`, `|` and `^`. Int: signed integers over the native numbers.
--   * Word: u64 arithmetic and the word helpers of bigint.rs (`ct_select_u64`, `ct_gt_u64`,
--     `widening_mul`, `nbits64`, `trailing_zeros`). Word.Laws and Word.Count hold their laws.
--   * Limbs: arrays of `N` words and the number `val` that they stand for; `cap n` is 2 ^ (64 n).
--   * Mag: the private kernels on magnitudes. Mag.Add (add.rs), Mag.Sub (sub.rs and the
--     subtraction of add.rs), Mag.Compare (cmp.rs, ct.rs and `mag_effective_len` of bits.rs), Mag.Mul
--     (mul.rs), Mag.Bits (bits.rs), Mag.Shift (shift.rs). The child module Value says what
--     the kernel computes, Short that the length-bounded kernel agrees with the full one.
--   * BigInt: the type, its invariant and the integer `to_ℤ` that a value stands for. BigInt.Sign
--     (bigint.rs and neg.rs), BigInt.Add (add.rs, sub.rs), BigInt.Mul (mul.rs), BigInt.Compare
--     (cmp.rs, ct.rs), BigInt.Resize (resize.rs), BigInt.Mac (mac.rs), BigInt.Bits (bits.rs),
--     BigInt.From (from.rs), BigInt.Shift (shift.rs), BigInt.Pow (pow.rs).
--     BigInt.Expression evaluates a polynomial by the operations and compares it with the integer.
--   * Linear: the vectors of src/quaternions/linear/vector.rs, whose dot product is a sum of terms, and
--     in Linear.Matrix the 4×4 matrices of matrix.rs.
--   * Algebra: the elements of the quaternion algebra of src/quaternions/algebra/mod.rs, which have
--     four coordinates and a denominator. Algebra.Gaussian has the quaternions as pairs of Gaussian
--     integers, Algebra.Prime the prime of src/quaternions/precomputed.rs.
--   * Ring: commutative rings as an interface. Ring.Polynomial computes the normal form of an
--     expression and Ring.Sound turns an equality of normal forms into an equation of the ring;
--     Ring.Integers fills the interface.
--   * Fields: the interface `Field`, which the curves take, and in Fields.Fp that of the prime field
--     (src/fields/fp/mod.rs) with what its documentation promises. Fields.Fp2 is `Fp2` of
--     src/fields/fp2/mod.rs over it; Fields.Fp2.Norm ends with `fp2_field`, which fills `Field`.
--   * Curves: Curves.Montgomery (src/curves/montgomery/mod.rs), Curves.Point (point.rs, and
--     `Isomorphism::eval` of isomorphism.rs), Curves.Jacobian (jacobian.rs) and Curves.Isogeny (the
--     steps of degree 2 and 4 of src/curves/isogeny/mod.rs, with the chains `isogeny_small` in
--     Curves.Isogeny.Chain and `isogeny` in Curves.Isogeny.Strategy). `IsCurve` says that the
--     three cached representations of a coefficient agree, `IsOnCurve` that a point with both
--     coordinates satisfies the equation.
--   * Surfaces: theta coordinates of level 2 (src/surfaces/mod.rs). Surfaces.Step has the steps of order
--     8, 4 and 2 (isogeny/step.rs), Surfaces.Gluing the first step (isogeny/gluing.rs),
--     Surfaces.Splitting the last one (isogeny/splitting.rs and precomputed.rs), and Surfaces.Chain and
--     Surfaces.Chain.Tail the chains of `Kernel`, which call them.
--   * Tests: concrete values at which the theorems are applied.
--
-- The signed operations call the kernels on the two magnitudes and choose a sign; the proofs go the
-- same way, from the kernels' values to the integers. `IsBigInt n` is the representation invariant
-- (a flag and `n` words), `IsCanonical` the clear sign of zero, and `truncated n` what `n` limbs
-- keep of an integer: the sign, and the magnitude modulo 2 ^ (64 n).
--
-- The field layer is one of equations: an element of a field stands for its residue, a test in
-- constant time is a Boolean, and a function has one definition for its operators on references and
-- on values. The curves are over any `Field`; conjugation and the square root of the extension are
-- arguments of the functions that call them, and the bits of a scalar an argument of the ladder.
-- The fields with three, five and nine elements are the concrete instances in Tests.
--
-- Bounds. The width `N` is the length of the limb array and is arbitrary. Words wrap around modulo
-- 2 ^ 64, which is written out. Bit counts and shift amounts are natural numbers; the source keeps
-- them in u32, so the model stands for widths with 64 N < 2 ^ 32. A sum of terms has fewer than
-- 2 ^ 64 of them, so the headroom words do not wrap. Every loop is bounded by its index and needs
-- no fuel, but for `pow_loop`: it halves an exponent of 32 bits, so 32 rounds are enough. The
-- inner loops of the chains have the order on the top of the stack as fuel, since every round lowers
-- that order, the main loops of the chains of surfaces their exponent, since every round lowers the
-- order at the bottom, and the model has running out of it as a panic. The operations of matrices and
-- of the algebra wrap around as those of `BigInt` do; the theorems on their integers have a bound on
-- the magnitudes below which nothing wraps, `Bounded` with the `weight` of a polynomial.
--
-- Not modelled: the assembly kernels below src/quaternions/bigint/arch and the dispatch to them, for
-- which the portable loops stand; the timing of the constant-time code; division, greatest common
-- divisors, square roots, modular and random integers, the byte codecs and squaring; the backends
-- of the prime field below src/fields/fp/arch; pairings, scalars and torsion bases; what stands on
-- division in the matrices and in the algebra (`scalar_div`, the normal forms of hnf.rs, `normalize` and
-- its callers); the ideals, lattices, keys and protocols. Randomness is a list of words.
pub mod Prelude
pub mod Bits
pub mod Word
pub mod Limbs
pub mod Mag
pub mod Int
pub mod BigInt
pub mod Linear
pub mod Ring
pub mod Fields
pub mod Curves
pub mod Algebra
pub mod Surfaces
mod Tests
