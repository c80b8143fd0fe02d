-- ===== src/Curves.antt =====
-- The curves of src/curves over the interface to a field, which the quadratic extension fills.
pub mod Montgomery
pub mod Point
pub mod Jacobian
pub mod Isogeny
