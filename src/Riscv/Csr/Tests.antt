-- ===== src/Riscv/Csr/Tests.antt =====
-- The control and status registers after reset, and each theorem on them at a concrete input.
use kxemu.Base.Shared.{◌≡◌, refl, true, if◌then◌else◌, [], arith}
use kxemu.Base.Bits.{bit_at}
use kxemu.Base.Word.{put_mask}
use kxemu.Riscv.Def
use kxemu.Riscv.Csr.{
  Rvcsr, reset, read_csr, write_csr, find_csr, csr_table, add_csrs, reset_value_of, call_read,
  call_write,
}
use kxemu.Riscv.Csr.Views

abbrev blank : Rvcsr
blank = record { value = λ a. 0; hart_id = 1; priv_mode = 3; pmp_cfg = []; uptime = 1000 }

mstatus_after_reset : read_csr Def.mstatus (reset blank) ≡ (true, 0x1800)
unfolding reset read_csr find_csr csr_table add_csrs reset_value_of call_read
mstatus_after_reset = refl

mhartid_after_reset : read_csr Def.mhartid (reset blank) ≡ (true, 1)
unfolding reset read_csr find_csr csr_table add_csrs reset_value_of call_read
mhartid_after_reset = refl

mie_after_sie : (write_csr Def.sie 0x222 blank).1.value Def.mie ≡ 0x220
unfolding write_csr find_csr csr_table add_csrs call_write put_mask
mie_after_sie = refl

write_csr-sstatus_example :
    bit_at ((write_csr Def.sstatus 0xffff blank).1.value Def.mstatus) 5
    ≡ (if Views.is_supervisor_bit 5 then bit_at 0xffff 5 else bit_at (blank.value Def.mstatus) 5)
write_csr-sstatus_example = Views.write_csr-sstatus 0xffff blank 5 (omega arith)
