-- ===== src/Mag.antt =====
-- The unsigned limb-array kernels `mag_*` of src/quaternions/bigint/, one module for each group.
pub mod Add
pub mod Sub
pub mod Compare
pub mod Mul
pub mod Bits
pub mod Shift
