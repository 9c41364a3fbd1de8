-- ===== src/Riscv/Field/Other.antt =====
-- The smaller classes of include/cpu/riscv/csr-field.hpp: PMPCfgItem, PMPCfg, PMPAddr, MISA,
-- MCounteren, MEnvConfig, TrapVec, MCause and FCSR.
use kxemu.Base.Shared.{ℕ, ◌-◌, ◌*◌, ◌^◌, bit_and, bit_or, Bool}
use kxemu.Base.Word.{not64, has_bit, ◌<<<◌, ◌>>>◌}

-- PMPCfg::item and the accessors of PMPCfgItem
abbrev pub pmp_item : ℕ → ℕ → ℕ
pmp_item v index = bit_and (v >>> (index * 8)) 0xff

abbrev pub pmp_r : ℕ → Bool
pmp_r v = has_bit v 0

abbrev pub pmp_w : ℕ → Bool
pmp_w v = has_bit v 1

abbrev pub pmp_x : ℕ → Bool
pmp_x v = has_bit v 2

abbrev pub pmp_a : ℕ → ℕ
pmp_a v = bit_and (v >>> 3) 0x3

abbrev pub pmp_addr : ℕ → ℕ
pmp_addr v = bit_and v (2 ^ 54 - 1)

-- A, C, D, F, I, M, S and U, with MXLEN 2
abbrev pub misa_value : ℕ
misa_value =
    bit_or
      (bit_and
        (bit_or (2 ^ 0) (
          bit_or (2 ^ 2) (
            bit_or (2 ^ 3)
              (bit_or (2 ^ 5) (bit_or (2 ^ 8) (bit_or (2 ^ 12) (bit_or (2 ^ 18) (2 ^ 20))))))))
        (not64 (3 <<< 62)))
      (2 <<< 62)

abbrev pub counter_tm : ℕ → Bool
counter_tm v = has_bit v 1

abbrev pub env_stce : ℕ → Bool
env_stce v = has_bit v 63

-- TrapVec
abbrev pub vec : ℕ → ℕ
vec v = bit_and v (not64 0x3)

abbrev pub vec_mode : ℕ → ℕ
vec_mode v = bit_and v 0x1

abbrev pub vectored : ℕ
vectored = 1

-- MCause(InterruptCode)
abbrev pub interrupt_cause : ℕ → ℕ
interrupt_cause code = bit_or (1 <<< 63) code

-- FCSR
abbrev pub get_fflags : ℕ → ℕ
get_fflags v = bit_and v 0x1f

abbrev pub get_frm : ℕ → ℕ
get_frm v = bit_and (v >>> 5) 0x7

abbrev pub set_fflags : ℕ → ℕ → ℕ
set_fflags v w = bit_or (bit_and v (not64 0x1f)) (bit_and w 0x1f)

abbrev pub set_frm : ℕ → ℕ → ℕ
set_frm v w = bit_or (bit_and v (not64 (0x7 <<< 5))) (bit_and w 0x7 <<< 5)
