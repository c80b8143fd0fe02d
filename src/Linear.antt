-- ===== src/Linear.antt =====
-- Vectors over `BigInt`: src/quaternions/linear.
pub mod Vector
pub mod Matrix
