-- ===== src/Riscv/Trap/Tests.antt =====
-- Traps and interrupts on concrete cores, and each theorem at one of them.
use kxemu.Base.Shared.{ℕ, ◌<◌, ◌≡◌, refl, arith, true, false, ◌==◌, ◌||◌, if◌then◌else◌}
use kxemu.Base.Bits.{bit_at}
use kxemu.Base.Word.{has_bit}
use kxemu.Riscv.Def
use kxemu.Riscv.Def.{machine, supervisor}
use kxemu.Riscv.Field.MStatus
use kxemu.Riscv.Core.{RvCore, priv_mode, get_csr, set_priv_mode, vm_translate, tlb_fence}
use kxemu.Riscv.Core.Sample.{core_with}
use kxemu.Riscv.Trap
use kxemu.Riscv.Trap.{
  enter_trap, interrupt_m, interrupt_s, mret, sret, scan_interrupt, inter_bits_m,
}
use kxemu.Riscv.Trap.Frame
use kxemu.Riscv.Trap.Pending.{elem}
use kxemu.Riscv.Trap.Return
use kxemu.Riscv.Trap.Scan
use kxemu.Riscv.Trap.Scan.{Scanned}
use kxemu.Riscv.Trap.Stale

-- Interrupts are enabled, the timer and the external interrupt of S-mode are pending.
abbrev word : ℕ → ℕ
word a =
    if a == Def.mstatus
    then 0x188a
    else if a == Def.mip
    then 0x220
    else if a == Def.mie
    then 0xaaa
    else if a == Def.medeleg
    then 0x100
    else if a == Def.mtvec
    then 0x8000_1001
    else if a == Def.stvec
    then 0x8000_2000
    else 0

abbrev user_core : RvCore
user_core = core_with 0 word

abbrev machine_core : RvCore
machine_core = core_with 3 word

delegated : has_bit 0x100 8 ≡ true
unfolding has_bit
delegated = refl

not_delegated : has_bit 0x100 2 ≡ false
unfolding has_bit
not_delegated = refl

due : Scan.due_m machine_core 9 ≡ true
unfolding has_bit
due = refl

-- ecall in U-mode is delegated; an illegal instruction is not, and the vectored handler is entered at
-- its own slot.
ecall_delegated : (enter_trap Def.ecall_u 0 user_core).npc ≡ 0x8000_2000
unfolding enter_trap Trap.enter_trap_s Trap.vector_target has_bit set_priv_mode vm_translate
    tlb_fence
ecall_delegated = refl

illegal_vectored : (enter_trap Def.illegal_inst 0x73 user_core).npc ≡ 0x8000_1008
unfolding enter_trap Trap.enter_trap_m Trap.vector_target has_bit set_priv_mode vm_translate
    tlb_fence
illegal_vectored = refl

mret-enter_trap_example :
    (priv_mode (enter_trap 2 0x73 user_core) ≡ machine)
    × ((mret (enter_trap 2 0x73 user_core)).npc ≡ user_core.pc)
    × (priv_mode (mret (enter_trap 2 0x73 user_core)) ≡ priv_mode user_core)
    × ((j : ℕ)
        → j < 64
        → bit_at (get_csr (mret (enter_trap 2 0x73 user_core)) Def.mstatus) j ≡ (
            if j == 7
            then 1
            else if j == 11 || j == 12
            then 0
            else bit_at (get_csr user_core Def.mstatus) j))
mret-enter_trap_example = Return.mret-enter_trap 2 0x73 user_core not_delegated (omega arith)

sret-enter_trap_example :
    (priv_mode (enter_trap 8 0 user_core) ≡ supervisor)
    × ((sret (enter_trap 8 0 user_core)).npc ≡ user_core.pc)
    × (priv_mode (sret (enter_trap 8 0 user_core)) ≡ priv_mode user_core)
    × ((j : ℕ)
        → j < 64
        → bit_at (get_csr (sret (enter_trap 8 0 user_core)) Def.mstatus) j ≡ (
            if j == 5
            then 1
            else if j == 8 || j == 17
            then 0
            else bit_at (get_csr user_core Def.mstatus) j))
sret-enter_trap_example = Return.sret-enter_trap 8 0 user_core delegated (omega arith)

enter_trap_lowers_example :
    (priv_mode (enter_trap 8 0 machine_core) ≡ supervisor)
    × (priv_mode (sret (enter_trap 8 0 machine_core)) ≡ supervisor)
enter_trap_lowers_example = Return.enter_trap_lowers 8 0 machine_core delegated refl

enter_trap-frame_example :
    (get_csr (enter_trap 8 0 user_core) Def.satp ≡ get_csr user_core Def.satp)
    × ((enter_trap 8 0 user_core).gpr ≡ user_core.gpr)
    × ((enter_trap 8 0 user_core).bus ≡ user_core.bus)
enter_trap-frame_example = Frame.enter_trap-frame 8 0 Def.satp user_core refl

scan_interrupt-Scanned_example : Scanned user_core (scan_interrupt user_core)
scan_interrupt-Scanned_example = Scan.scan_interrupt-Scanned user_core

scan_interrupt-enter_trap_example :
    (MStatus.mie (get_csr (enter_trap 2 0x73 machine_core) Def.mstatus) ≡ false)
    × ((taken : ℕ) × (elem taken inter_bits_m ≡ true)
        × (has_bit (get_csr machine_core Def.mip) taken ≡ true)
        × (has_bit (get_csr machine_core Def.mie) taken ≡ true)
        × (has_bit (get_csr machine_core Def.mideleg) taken ≡ false)
        × (scan_interrupt (enter_trap 2 0x73 machine_core)
            ≡ (true, interrupt_m taken (enter_trap 2 0x73 machine_core))))
scan_interrupt-enter_trap_example =
    Stale.scan_interrupt-enter_trap 2 0x73 9 machine_core not_delegated refl refl due
