-- ===== src/Riscv/Dispatch/Tests.antt =====
-- Words in the decoding switches, and each theorem on them at one.
use kxemu.Base.Shared.{◌≡◌, refl, arith, some, none}
use kxemu.Riscv.Decode.Ranges.{InstType}
use kxemu.Riscv.Inst.Exec.{Inst}
use kxemu.Riscv.Dispatch.{decode, find_case}
use kxemu.Riscv.Dispatch.Rows.{typed}
use kxemu.Riscv.Dispatch.Base.{base_table}
use kxemu.Riscv.Dispatch.Laws.{patterns, nth-Listed, decode-Listed}

-- A word of zeros is no instruction.
zeros_invalid : decode base_table 0 ≡ none
unfolding decode find_case
zeros_invalid = refl

-- sub a0, a1, a2
decode-Listed_example : decode base_table 0x40c5_8533 ≡ some (typed Inst.i_sub InstType.r)
unfolding patterns
decode-Listed_example =
    decode-Listed
      (record { mask = 0xfe00707f; key = 0x40000033; target = typed Inst.i_sub InstType.r })
      0x40c5_8533
      (nth-Listed 1
        (record { mask = 0xfe00707f; key = 0x40000033; target = typed Inst.i_sub InstType.r })
        (patterns base_table) refl)
      (omega arith) refl refl
