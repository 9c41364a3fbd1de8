-- ===== src/Riscv/Field/Mip.antt =====
-- class MIP of include/cpu/riscv/csr-field.hpp.
use kxemu.Base.Shared.{ℕ, ◌^◌, bit_and, bit_or}
use kxemu.Base.Word.{not64, put_mask}
use kxemu.Riscv.Def.{timer_s, software_s, external_s}

abbrev pub rw_mask : ℕ
rw_mask = bit_or (2 ^ timer_s) (2 ^ software_s)

abbrev pub inter_mask_s : ℕ
inter_mask_s = bit_or (2 ^ software_s) (bit_or (2 ^ timer_s) (2 ^ external_s))

-- Only STIP and SSIP can be written through mip.
abbrev pub set_mip : ℕ → ℕ → ℕ
set_mip v w = put_mask v rw_mask w

abbrev pub sip : ℕ → ℕ
sip v = bit_and v inter_mask_s

abbrev pub set_sip : ℕ → ℕ → ℕ
set_sip v w = put_mask v (2 ^ software_s) w

abbrev pub set_pending : ℕ → ℕ → ℕ
set_pending v code = bit_or v (2 ^ code)

abbrev pub clear_pending : ℕ → ℕ → ℕ
clear_pending v code = bit_and v (not64 (2 ^ code))
