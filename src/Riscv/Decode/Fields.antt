-- ===== src/Riscv/Decode/Fields.antt =====
-- The digits of what the macros BITS and SEXT of decode.cpp give.
use native.Mathlib.Nat.{one-le-pow, mod-lt}
use kxemu.Base.Shared.{ℕ, ◌+◌, ◌-◌, ◌/◌, ◌^◌, ◌<◌, ◌≡◌, arith, ltb, if◌then◌else◌}
use kxemu.Base.Bits.{bit_at, bit_at-shl, bit_and-mask}
use kxemu.Base.Digits.{bit_at-field, bit_at-sign_extended}
use kxemu.Base.Word.{◌<<<◌}
use kxemu.Base.Signed.{to_signed, of_signed, shr_ℤ}
use kxemu.Riscv.Decode.{bits, sext_from}

-- SEXT at the widths in use.
sext_from-12 :
    (v : ℕ)
    → v < 2 ^ 12
    → sext_from v 12 ≡ (if ltb v (2 ^ 11) then v else 2 ^ 64 - 1 - (2 ^ 12 - 1 - v))
unfolding sext_from to_signed of_signed shr_ℤ
sext_from-12 v h = ground arith

sext_from-13 :
    (v : ℕ)
    → v < 2 ^ 13
    → sext_from v 13 ≡ (if ltb v (2 ^ 12) then v else 2 ^ 64 - 1 - (2 ^ 13 - 1 - v))
unfolding sext_from to_signed of_signed shr_ℤ
sext_from-13 v h = ground arith

sext_from-21 :
    (v : ℕ)
    → v < 2 ^ 21
    → sext_from v 21 ≡ (if ltb v (2 ^ 20) then v else 2 ^ 64 - 1 - (2 ^ 21 - 1 - v))
unfolding sext_from to_signed of_signed shr_ℤ
sext_from-21 v h = ground arith

sext_from-32 :
    (v : ℕ)
    → v < 2 ^ 32
    → sext_from v 32 ≡ (if ltb v (2 ^ 31) then v else 2 ^ 64 - 1 - (2 ^ 32 - 1 - v))
unfolding sext_from to_signed of_signed shr_ℤ
sext_from-32 v h = ground arith

pub bit_at-bits :
    (inst hi lo j : ℕ)
    → bit_at (bits inst hi lo) j ≡ (if ltb j (hi - lo + 1) then bit_at inst (lo + j) else 0)
unfolding bits
bit_at-bits inst hi lo j = bit_at-field (hi - lo + 1) inst lo j

pub bits-lt : (inst hi lo : ℕ) → bits inst hi lo < 2 ^ (hi - lo + 1)
unfolding bits
bits-lt inst hi lo = omega (
  arith,
  bit_and-mask (hi - lo + 1) (inst / 2 ^ lo),
  mod-lt (inst / 2 ^ lo) (one-le-pow (hi - lo + 1) 2 (omega arith)),
)

pub sext_digits-12 :
    (v j : ℕ)
    → v < 2 ^ 12
    → j < 64
    → bit_at (sext_from v 12) j ≡ (if ltb j 11 then bit_at v j else bit_at v 11)
sext_digits-12 v j h l = rw (sext_from-12 v h) (bit_at-sign_extended 11 v j (omega arith) h l)

pub sext_digits-13 :
    (v j : ℕ)
    → v < 2 ^ 13
    → j < 64
    → bit_at (sext_from v 13) j ≡ (if ltb j 12 then bit_at v j else bit_at v 12)
sext_digits-13 v j h l = rw (sext_from-13 v h) (bit_at-sign_extended 12 v j (omega arith) h l)

pub sext_digits-21 :
    (v j : ℕ)
    → v < 2 ^ 21
    → j < 64
    → bit_at (sext_from v 21) j ≡ (if ltb j 20 then bit_at v j else bit_at v 20)
sext_digits-21 v j h l = rw (sext_from-21 v h) (bit_at-sign_extended 20 v j (omega arith) h l)

pub sext_digits-32 :
    (v j : ℕ)
    → v < 2 ^ 32
    → j < 64
    → bit_at (sext_from v 32) j ≡ (if ltb j 31 then bit_at v j else bit_at v 31)
sext_digits-32 v j h l = rw (sext_from-32 v h) (bit_at-sign_extended 31 v j (omega arith) h l)

-- A field put at its place.
pub placed :
    (inst hi lo k j : ℕ)
    → bit_at (bits inst hi lo <<< k) j
      ≡ (if ltb j k then 0 else if ltb (j - k) (hi - lo + 1) then bit_at inst (lo + (j - k)) else 0)
placed inst hi lo k j =
    ground (arith, bit_at-shl (bits inst hi lo) k j, bit_at-bits inst hi lo (j - k))
