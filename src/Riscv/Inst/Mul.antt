-- ===== src/Riscv/Inst/Mul.antt =====
-- src/cpu/riscv/inst/mul.cpp. A division that traps on the host, by a zero or of the least integer
-- by -1, is undefined behaviour.
use Prim.{Unit}
use kxemu.Base.Shared.{ℕ, zero, suc, ◌-◌, ◌*◌, ◌/◌, ◌%◌, ◌^◌, Bool, ◌&&◌, ◌||◌, ◌==◌, if◌then◌else◌}
use kxemu.Base.Word.{u32, u64, ◌>>>◌}
use kxemu.Base.Int.{ℤ, pos, negsuc, ◌*ℤ◌}
use kxemu.Base.Signed.{to_signed, of_signed, shr_ℤ, sext}
use kxemu.Riscv.Core.{M, undefined}
use kxemu.Riscv.Decode.{DecodeInfo}
use kxemu.Riscv.Inst.{src1, src2, set_dest}

abbrev pub neg_ℕ : ℕ → ℤ
neg_ℕ zero = pos 0
neg_ℕ (suc n) = negsuc n

-- `/` and `%` of C++ round towards zero.
unfoldable pub quot_ℤ : ℤ → ℤ → ℤ
quot_ℤ (pos a) (pos b) = pos (a / b)
quot_ℤ (pos a) (negsuc b) = neg_ℕ (a / suc b)
quot_ℤ (negsuc a) (pos b) = neg_ℕ (suc a / b)
quot_ℤ (negsuc a) (negsuc b) = pos (suc a / suc b)

unfoldable pub rem_ℤ : ℤ → ℤ → ℤ
rem_ℤ (pos a) (pos b) = pos (a % b)
rem_ℤ (pos a) (negsuc b) = pos (a % suc b)
rem_ℤ (negsuc a) (pos b) = neg_ℕ (suc a % b)
rem_ℤ (negsuc a) (negsuc b) = neg_ℕ (suc a % suc b)

-- The least integer of `w` bits by -1.
abbrev pub overflows : ℕ → ℕ → ℕ → Bool
overflows w a b = (a == 2 ^ (w - 1)) && (b == 2 ^ w - 1)

unfoldable pub do_mul : DecodeInfo → M (Unit {0})
do_mul d core = set_dest d (u64 (src1 d core * src2 d core)) core

unfoldable pub do_mulh : DecodeInfo → M (Unit {0})
do_mulh d core =
    set_dest d (of_signed 64 (shr_ℤ (to_signed 64 (src1 d core) *ℤ to_signed 64 (src2 d core)) 64))
      core

-- The cast of SRC1 is from an unsigned type, so both factors are unsigned.
unfoldable pub do_mulhsu : DecodeInfo → M (Unit {0})
do_mulhsu d core = set_dest d (u64 (((src1 d core * src2 d core) % 2 ^ 128) >>> 64)) core

unfoldable pub do_mulhu : DecodeInfo → M (Unit {0})
do_mulhu d core = set_dest d (u64 (((src1 d core * src2 d core) % 2 ^ 128) >>> 64)) core

unfoldable pub do_div : DecodeInfo → M (Unit {0})
do_div d core =
    if src2 d core == 0
    then set_dest d (2 ^ 64 - 1) core
    else if overflows 64 (src1 d core) (src2 d core)
    then (undefined, core)
    else set_dest d
        (of_signed 64 (quot_ℤ (to_signed 64 (src1 d core)) (to_signed 64 (src2 d core)))) core

unfoldable pub do_divu : DecodeInfo → M (Unit {0})
do_divu d core =
    if src2 d core == 0
    then set_dest d (2 ^ 64 - 1) core
    else set_dest d (src1 d core / src2 d core) core

unfoldable pub do_rem : DecodeInfo → M (Unit {0})
do_rem d core =
    if src2 d core == 0
    then set_dest d (src1 d core) core
    else if overflows 64 (src1 d core) (src2 d core)
    then (undefined, core)
    else set_dest d (of_signed 64 (rem_ℤ (to_signed 64 (src1 d core)) (to_signed 64 (src2 d core))))
        core

unfoldable pub do_remu : DecodeInfo → M (Unit {0})
do_remu d core =
    if src2 d core == 0
    then set_dest d (src1 d core) core
    else set_dest d (src1 d core % src2 d core) core

unfoldable pub do_mulw : DecodeInfo → M (Unit {0})
do_mulw d core = set_dest d (sext 32 (u32 (src1 d core) * u32 (src2 d core))) core

-- All 64 digits of SRC2 are tested, and the low 32 are divided by.
unfoldable pub do_divw : DecodeInfo → M (Unit {0})
do_divw d core =
    let a = u32 (src1 d core) in
    let b = u32 (src2 d core) in
    if src2 d core == 0
    then set_dest d (2 ^ 64 - 1) core
    else if (b == 0) || overflows 32 a b
    then (undefined, core)
    else set_dest d (of_signed 64 (quot_ℤ (to_signed 32 a) (to_signed 32 b))) core

unfoldable pub do_divuw : DecodeInfo → M (Unit {0})
do_divuw d core =
    let a = u32 (src1 d core) in
    let b = u32 (src2 d core) in
    if src2 d core == 0
    then set_dest d (2 ^ 64 - 1) core
    else if b == 0
    then (undefined, core)
    else set_dest d (a / b) core

unfoldable pub do_remw : DecodeInfo → M (Unit {0})
do_remw d core =
    let a = u32 (src1 d core) in
    let b = u32 (src2 d core) in
    if src2 d core == 0
    then set_dest d (src1 d core) core
    else if (b == 0) || overflows 32 a b
    then (undefined, core)
    else set_dest d (of_signed 64 (rem_ℤ (to_signed 32 a) (to_signed 32 b))) core

unfoldable pub do_remuw : DecodeInfo → M (Unit {0})
do_remuw d core =
    let a = u32 (src1 d core) in
    let b = u32 (src2 d core) in
    if src2 d core == 0
    then set_dest d (src1 d core) core
    else if b == 0
    then (undefined, core)
    else set_dest d (sext 32 (a % b)) core
