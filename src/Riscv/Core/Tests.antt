-- ===== src/Riscv/Core/Tests.antt =====
-- The theorems on the state of the core at a concrete core.
use kxemu.Base.Shared.{◌≡◌, refl, true, some}
use kxemu.Riscv.Def
use kxemu.Riscv.Core.Registers.{
  get_register, set_register, find_register, write_register, get_register-set_register,
}
use kxemu.Riscv.Core.{RvCore, set_gpr, write_csr, set_priv_mode, reset, tlb_fence}
use kxemu.Riscv.Core.Vm.{IsTranslatable, write_csr-IsTranslatable}
use kxemu.Riscv.Core.Sample.{core_with}

abbrev machine_core : RvCore
machine_core = core_with 3 (λ a. 0)

machine_core-IsTranslatable : IsTranslatable machine_core
machine_core-IsTranslatable = record { supported = refl; selected = λ p. cc }

write_csr-IsTranslatable_example :
    IsTranslatable (write_csr Def.satp 0x8000000000080000 machine_core).1
    × IsTranslatable (set_priv_mode 1 machine_core)
write_csr-IsTranslatable_example =
    write_csr-IsTranslatable Def.satp 0x8000000000080000 1 machine_core machine_core-IsTranslatable

-- The entry point, and the hart number in a0.
reset_entry :
    ((reset 0x8000_0000 machine_core).pc ≡ 0x8000_0000)
    × ((reset 0x8000_0000 machine_core).gpr 10 ≡ 1)
unfolding reset tlb_fence
reset_entry = (refl, refl)

a0_written :
    set_register "a0" 77 (core_with 3 (λ a. 0)) ≡ (true, set_gpr 10 77 (core_with 3 (λ a. 0)))
unfolding set_register find_register write_register
a0_written = refl

get_register-set_register_example :
    get_register "a0" (set_gpr 10 77 (core_with 3 (λ a. 0))) ≡ some 77
get_register-set_register_example =
    get_register-set_register "a0" 77 (core_with 3 (λ a. 0)) (set_gpr 10 77 (core_with 3 (λ a. 0)))
      a0_written
