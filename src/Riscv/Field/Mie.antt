-- ===== src/Riscv/Field/Mie.antt =====
-- class MIE of include/cpu/riscv/csr-field.hpp.
use kxemu.Base.Shared.{ℕ, bit_and}
use kxemu.Base.Word.{put_mask}
use kxemu.Riscv.Field.Mip.{inter_mask_s}

-- bits 0, 3, 5, 7, 9, 11 and 13
abbrev pub inter_mask : ℕ
inter_mask = 0b10101010101001

-- The constructor drops what is no interrupt.
abbrev pub of_word : ℕ → ℕ
of_word v = bit_and v inter_mask

abbrev pub sie : ℕ → ℕ
sie v = bit_and v inter_mask_s

abbrev pub set_sie : ℕ → ℕ → ℕ
set_sie v w = put_mask v inter_mask_s w
