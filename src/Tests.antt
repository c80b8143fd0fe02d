-- ===== src/Tests.antt =====
-- Values at which the theorems are applied, and runs of the code.
mod Add
mod Mul
mod Values
mod Mag
mod Shift
mod Vector
mod Matrix
mod Algebra
mod Surfaces
mod Field3
mod Field5
mod Instances
mod Fields
mod Curves
mod Chains
