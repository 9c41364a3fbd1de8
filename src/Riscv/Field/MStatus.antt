-- ===== src/Riscv/Field/MStatus.antt =====
-- class MStatus of include/cpu/riscv/csr-field.hpp.
use kxemu.Base.Shared.{ℕ, bit_and, bit_or, Bool}
use kxemu.Base.Word.{not64, has_bit, put_bit, put_mask, of_bool, ◌<<<◌, ◌>>>◌}

abbrev pub sie : ℕ → Bool
sie v = has_bit v 1

abbrev pub mie : ℕ → Bool
mie v = has_bit v 3

abbrev pub spie : ℕ → Bool
spie v = has_bit v 5

abbrev pub mpie : ℕ → Bool
mpie v = has_bit v 7

abbrev pub spp : ℕ → ℕ
spp v = bit_and (v >>> 8) 0x1

abbrev pub mpp : ℕ → ℕ
mpp v = bit_and (v >>> 11) 0x3

abbrev pub sum : ℕ → Bool
sum v = has_bit v 18

abbrev pub set_sie : ℕ → Bool → ℕ
set_sie v b = put_bit v 1 (of_bool b)

abbrev pub set_mie : ℕ → Bool → ℕ
set_mie v b = put_bit v 3 (of_bool b)

abbrev pub set_spie : ℕ → Bool → ℕ
set_spie v b = put_bit v 5 (of_bool b)

abbrev pub set_mpie : ℕ → Bool → ℕ
set_mpie v b = put_bit v 7 (of_bool b)

-- The parameter is a `bool`: every mode but 0 is stored as 1.
abbrev pub set_spp : ℕ → Bool → ℕ
set_spp v b = put_bit v 8 (of_bool b)

abbrev pub set_mpp : ℕ → ℕ → ℕ
set_mpp v m = bit_or (bit_and v (not64 (3 <<< 11))) (bit_and m 0x3 <<< 11)

abbrev pub set_mprv : ℕ → Bool → ℕ
set_mprv v b = put_bit v 17 (of_bool b)

-- SIE, SPIE, SPP, FS, XS, SUM, MXR, SPELP, SDT, UXL and SD
abbrev pub sstatus_mask : ℕ
sstatus_mask = bit_or (1 <<< 1) (
    bit_or (1 <<< 5) (
      bit_or (1 <<< 8) (
        bit_or (3 <<< 13) (
          bit_or (3 <<< 15) (
            bit_or (1 <<< 18) (
              bit_or (1 <<< 19)
                (bit_or (1 <<< 23) (bit_or (1 <<< 24) (bit_or (3 <<< 32) (1 <<< 63))))))))))

abbrev pub sstatus : ℕ → ℕ
sstatus v = bit_and v sstatus_mask

abbrev pub set_sstatus : ℕ → ℕ → ℕ
set_sstatus v w = put_mask v sstatus_mask w
