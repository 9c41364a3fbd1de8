-- ===== src/Riscv.antt =====
-- The RISC-V core: src/cpu/riscv and include/cpu/riscv.
pub mod Def
pub mod Field
pub mod Csr
pub mod Core
pub mod Decode
pub mod Memory
pub mod Inst
pub mod Trap
pub mod Zicsr
pub mod Signal
pub mod Plic
pub mod Aclint
pub mod Dispatch
pub mod Execute
