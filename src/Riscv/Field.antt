-- ===== src/Riscv/Field.antt =====
-- The field classes of include/cpu/riscv/csr-field.hpp, a module for each class. A CSRField is its
-- `value`; a setter returns the new value.
pub mod MStatus
pub mod Mip
pub mod Mie
pub mod Satp
pub mod Other
