-- ===== src/Riscv/Inst/Atomic/Address.antt =====
-- What finding the address of an atomic instruction of atomic.cpp leaves alone.
use kxemu.Base.Shared.{ℕ, ◌-◌, refl, bit_and, ◌==◌, Bool-cases, inl, inr}
use kxemu.Riscv.Def
use kxemu.Riscv.Def.{machine}
use kxemu.Riscv.Core.{priv_mode}
use kxemu.Riscv.Memory.{vaddr_translate_core, or_throw, amo_type}
use kxemu.Riscv.Memory.Frame.{Keeps, bind-Keeps, or_throw-Keeps, vaddr_translate_core-Keeps}
use kxemu.Riscv.Inst.Atomic.{amo_address}

pub amo_address-Keeps : (vaddr len : ℕ) → Keeps (amo_address vaddr len)
unfolding amo_address
amo_address-Keeps vaddr len core = elim (Bool-cases (bit_and vaddr (len - 1) == 0)) [
  | inr p ↦ rw p (record { gpr = refl; csr = refl; pc = refl; npc = refl; state = refl })
  | inl p ↦ elim (Bool-cases (priv_mode core == machine)) [
    | inl q ↦ rw (p, q) (record { gpr = refl; csr = refl; pc = refl; npc = refl; state = refl })
    | inr q ↦
        rw (p, q)
          (bind-Keeps (vaddr_translate_core vaddr amo_type)
            (or_throw Def.amo_access_fault Def.amo_page_fault vaddr)
            (vaddr_translate_core-Keeps vaddr amo_type)
            (or_throw-Keeps Def.amo_access_fault Def.amo_page_fault vaddr) core)
  ]
]
