-- ===== src/Fields/Fp2.antt =====
-- The quadratic extension of src/fields/fp2/mod.rs: elements a + b·i with i² = −1, over the interface
-- to the prime field. Operators on references and on values are one function here, and so are the
-- assigning ones.
pub mod Ring
pub mod Norm
pub mod Root
pub mod Roundtrip
use sqisign_selkie.Prelude.{Bool, ◌&&◌, ◌||◌, List, ◌++◌, ℕ, take, drop}
use sqisign_selkie.Fields.Fp.{Fp, fp_encoded_bytes, lowest_bit}

module _ (f : Fp) where
  open f.field use {invert as fp_invert, ct_eq as fp_ct_eq}
  open f.field.ring use {
    Carrier, zero as fp_zero, one as fp_one, add as fp_add, sub as fp_sub, neg as fp_neg,
    mul as fp_mul, square as fp_square,
  }

  pub record Fp2 : Type 0 where
    pub a : Carrier
    pub b : Carrier

  abbrev pub new : Carrier → Carrier → Fp2
  new a b = record { a = a; b = b }

  abbrev pub zero : Fp2
  zero = new fp_zero fp_zero

  abbrev pub one : Fp2
  one = new fp_one fp_zero

  abbrev pub i : Fp2
  i = new fp_zero fp_one

  abbrev pub minus_one : Fp2
  minus_one = new f.minus_one fp_zero

  abbrev pub from_fp : Carrier → Fp2
  from_fp a = new a fp_zero

  unfoldable pub square : Fp2 → Fp2
  square x =
      let a_plus_b = fp_add x.a x.b in
      let a_minus_b = fp_sub x.a x.b in
      let two_ab = fp_mul x.a x.b in new (fp_mul a_plus_b a_minus_b) (fp_add two_ab two_ab)

  unfoldable pub norm : Fp2 → Carrier
  norm x = fp_add (fp_square x.a) (fp_square x.b)

  unfoldable pub conjugate : Fp2 → Fp2
  conjugate x = new x.a (fp_neg x.b)

  unfoldable pub invert : Fp2 → Fp2
  unfolding norm
  invert x = let n_inv = fp_invert (norm x) in new (fp_mul x.a n_inv) (fp_mul (fp_neg x.b) n_inv)

  unfoldable pub add : Fp2 → Fp2 → Fp2
  add x y = new (fp_add x.a y.a) (fp_add x.b y.b)

  unfoldable pub sub : Fp2 → Fp2 → Fp2
  sub x y = new (fp_sub x.a y.a) (fp_sub x.b y.b)

  unfoldable pub neg : Fp2 → Fp2
  neg x = new (fp_neg x.a) (fp_neg x.b)

  unfoldable pub mul : Fp2 → Fp2 → Fp2
  mul x y = new (f.difference_of_2_products x.a y.a x.b y.b) (f.sum_of_2_products x.a y.b x.b y.a)

  unfoldable pub mul_fp : Fp2 → Carrier → Fp2
  mul_fp x y = new (fp_mul x.a y) (fp_mul x.b y)

  unfoldable pub ct_eq : Fp2 → Fp2 → Bool
  ct_eq x y = fp_ct_eq x.a y.a && fp_ct_eq x.b y.b

  unfoldable pub conditional_select : Fp2 → Fp2 → Bool → Fp2
  conditional_select x y choice =
      new (f.conditional_select x.a y.a choice) (f.conditional_select x.b y.b choice)

  unfoldable pub is_square : Fp2 → Bool
  is_square x = f.is_square (norm x) || ct_eq x zero

  -- The root that the formula gives, before its sign is chosen.
  unfoldable pub sqrt_root : Fp2 → Fp2
  sqrt_root x =
      let delta = f.sqrt (norm x) in
      let x0 = fp_add x.a delta in
      let t0 = fp_add x0 x0 in
      let x1 = f.pow_p3div4 t0 in
      let x0 = fp_mul x0 x1 in
      let x1 = fp_mul x.b x1 in
      let t1 = fp_square (fp_add x0 x0) in
      let is_eq = fp_ct_eq t1 t0 in
      new (f.conditional_select x1 x0 is_eq) (f.conditional_select (fp_neg x0) x1 is_eq)

  -- The test of the sign of a root.
  unfoldable pub root_is_odd : Fp2 → Bool
  root_is_odd r =
      let re_is_odd = lowest_bit (f.to_bytes r.a) in
      let re_is_zero = fp_ct_eq r.a fp_zero in
      let im_is_odd = lowest_bit (f.to_bytes r.b) in re_is_odd || (re_is_zero && im_is_odd)

  unfoldable pub sqrt : Fp2 → Fp2
  sqrt x =
      let r = sqrt_root x in
      let negate = root_is_odd r in
      let neg_re = fp_neg r.a in
      let neg_im = fp_neg r.b in
      new (f.conditional_select r.a neg_re negate) (f.conditional_select r.b neg_im negate)

  unfoldable pub to_bytes : Fp2 → List ℕ
  to_bytes x = f.to_bytes x.a ++ f.to_bytes x.b

  unfoldable pub from_bytes : List ℕ → Fp2
  from_bytes bytes =
      new (f.from_bytes (take fp_encoded_bytes bytes)) (f.from_bytes (drop fp_encoded_bytes bytes))
