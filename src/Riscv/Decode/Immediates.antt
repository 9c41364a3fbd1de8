-- ===== src/Riscv/Decode/Immediates.antt =====
-- The immediates that decode.cpp assembles, digit by digit as the manual's table of immediates has
-- them: digit `j` of each is one digit of the instruction word.
use kxemu.Base.Shared.{ℕ, ◌+◌, ◌^◌, ◌<◌, ◌≡◌, arith, bit_or, ◌==◌, ltb, if◌then◌else◌}
use kxemu.Base.Bits.{bit_at, bit_at-or}
use kxemu.Base.Digits.{bit_or-lt}
use kxemu.Base.Word.{◌<<<◌}
use kxemu.Riscv.Decode.{bits, imm_i, imm_s, imm_b, imm_j, imm_u}
use kxemu.Riscv.Decode.Fields.{
  bit_at-bits, bits-lt, sext_digits-12, sext_digits-13, sext_digits-21, sext_digits-32, placed,
}

-- The 12-bit immediate of loads, jalr and the arithmetic instructions: digits 31 to 20.
pub imm_i_digits :
    (inst j : ℕ)
    → j < 64
    → bit_at (imm_i inst) j ≡ (if ltb j 11 then bit_at inst (20 + j) else bit_at inst 31)
imm_i_digits inst j h = ground (
  arith,
  sext_digits-12 (bits inst 31 20) j (bits-lt inst 31 20) h,
  bit_at-bits inst 31 20 j,
  bit_at-bits inst 31 20 11,
)

raw_b : ℕ → ℕ
raw_b inst =
    bit_or (bit_or (bit_or (bits inst 31 31 <<< 12) (bits inst 30 25 <<< 5)) (bits inst 11 8 <<< 1))
      (bits inst 7 7 <<< 11)

raw_b-lt : (inst : ℕ) → raw_b inst < 2 ^ 13
unfolding raw_b
raw_b-lt inst =
    bit_or-lt 13 _ _
      (bit_or-lt 13 _ _
        (bit_or-lt 13 _ _ (omega (arith, bits-lt inst 31 31)) (omega (arith, bits-lt inst 30 25)))
        (omega (arith, bits-lt inst 11 8)))
      (omega (arith, bits-lt inst 7 7))

raw_b_digits :
    (inst j : ℕ)
    → bit_at (raw_b inst) j ≡ (
        if j == 0
        then 0
        else if ltb j 5
        then bit_at inst (7 + j)
        else if ltb j 11
        then bit_at inst (20 + j)
        else if j == 11
        then bit_at inst 7
        else if j == 12
        then bit_at inst 31
        else 0)
unfolding raw_b
raw_b_digits inst j = ground (
  arith,
  bit_at-or
      (bit_or (bit_or (bits inst 31 31 <<< 12) (bits inst 30 25 <<< 5)) (bits inst 11 8 <<< 1))
      (bits inst 7 7 <<< 11) j,
  bit_at-or (bit_or (bits inst 31 31 <<< 12) (bits inst 30 25 <<< 5)) (bits inst 11 8 <<< 1) j,
  bit_at-or (bits inst 31 31 <<< 12) (bits inst 30 25 <<< 5) j,
  placed inst 31 31 12 j,
  placed inst 30 25 5 j,
  placed inst 11 8 1 j,
  placed inst 7 7 11 j,
)

-- The branch offset: digits 31, 7, 30 to 25 and 11 to 8, and a 0.
pub imm_b_digits :
    (inst j : ℕ)
    → j < 64
    → bit_at (imm_b inst) j ≡ (
        if j == 0
        then 0
        else if ltb j 5
        then bit_at inst (7 + j)
        else if ltb j 11
        then bit_at inst (20 + j)
        else if j == 11
        then bit_at inst 7
        else bit_at inst 31)
unfolding imm_b raw_b
imm_b_digits inst j h = ground (
  arith,
  sext_digits-13 (raw_b inst) j (raw_b-lt inst) h,
  raw_b_digits inst j,
  raw_b_digits inst 12,
)

raw_s : ℕ → ℕ
raw_s inst = bit_or (bits inst 31 25 <<< 5) (bits inst 11 7)

raw_s-lt : (inst : ℕ) → raw_s inst < 2 ^ 12
unfolding raw_s
raw_s-lt inst =
    bit_or-lt 12 _ _ (omega (arith, bits-lt inst 31 25)) (omega (arith, bits-lt inst 11 7))

raw_s_digits :
    (inst j : ℕ)
    → bit_at (raw_s inst) j
      ≡ (if ltb j 5 then bit_at inst (7 + j) else if ltb j 12 then bit_at inst (20 + j) else 0)
unfolding raw_s
raw_s_digits inst j = ground (
  arith,
  bit_at-or (bits inst 31 25 <<< 5) (bits inst 11 7) j,
  placed inst 31 25 5 j,
  bit_at-bits inst 11 7 j,
)

-- The offset of a store: digits 31 to 25 and 11 to 7.
pub imm_s_digits :
    (inst j : ℕ)
    → j < 64
    → bit_at (imm_s inst) j ≡ (
        if ltb j 5
        then bit_at inst (7 + j)
        else if ltb j 11
        then bit_at inst (20 + j)
        else bit_at inst 31)
unfolding imm_s raw_s
imm_s_digits inst j h = ground (
  arith,
  sext_digits-12 (raw_s inst) j (raw_s-lt inst) h,
  raw_s_digits inst j,
  raw_s_digits inst 11,
)

raw_j : ℕ → ℕ
raw_j inst =
    bit_or
      (bit_or (bit_or (bits inst 31 31 <<< 20) (bits inst 30 21 <<< 1)) (bits inst 20 20 <<< 11))
      (bits inst 19 12 <<< 12)

raw_j-lt : (inst : ℕ) → raw_j inst < 2 ^ 21
unfolding raw_j
raw_j-lt inst =
    bit_or-lt 21 _ _
      (bit_or-lt 21 _ _
        (bit_or-lt 21 _ _ (omega (arith, bits-lt inst 31 31)) (omega (arith, bits-lt inst 30 21)))
        (omega (arith, bits-lt inst 20 20)))
      (omega (arith, bits-lt inst 19 12))

raw_j_digits :
    (inst j : ℕ)
    → bit_at (raw_j inst) j ≡ (
        if j == 0
        then 0
        else if ltb j 11
        then bit_at inst (20 + j)
        else if j == 11
        then bit_at inst 20
        else if ltb j 20
        then bit_at inst j
        else if j == 20
        then bit_at inst 31
        else 0)
unfolding raw_j
raw_j_digits inst j = ground (
  arith,
  bit_at-or
      (bit_or (bit_or (bits inst 31 31 <<< 20) (bits inst 30 21 <<< 1)) (bits inst 20 20 <<< 11))
      (bits inst 19 12 <<< 12) j,
  bit_at-or (bit_or (bits inst 31 31 <<< 20) (bits inst 30 21 <<< 1)) (bits inst 20 20 <<< 11) j,
  bit_at-or (bits inst 31 31 <<< 20) (bits inst 30 21 <<< 1) j,
  placed inst 31 31 20 j,
  placed inst 30 21 1 j,
  placed inst 20 20 11 j,
  placed inst 19 12 12 j,
)

-- The offset of jal: digits 31, 19 to 12, 20 and 30 to 21, and a 0.
pub imm_j_digits :
    (inst j : ℕ)
    → j < 64
    → bit_at (imm_j inst) j ≡ (
        if j == 0
        then 0
        else if ltb j 11
        then bit_at inst (20 + j)
        else if j == 11
        then bit_at inst 20
        else if ltb j 20
        then bit_at inst j
        else bit_at inst 31)
unfolding imm_j raw_j
imm_j_digits inst j h = ground (
  arith,
  sext_digits-21 (raw_j inst) j (raw_j-lt inst) h,
  raw_j_digits inst j,
  raw_j_digits inst 20,
)

-- The immediate of lui and auipc: digits 31 to 12 over twelve zeros.
pub imm_u_digits :
    (inst j : ℕ)
    → j < 64
    → bit_at (imm_u inst) j
      ≡ (if ltb j 12 then 0 else if ltb j 31 then bit_at inst j else bit_at inst 31)
unfolding imm_u
imm_u_digits inst j h = ground (
  arith,
  sext_digits-32 (bits inst 31 12 <<< 12) j (omega (arith, bits-lt inst 31 12)) h,
  placed inst 31 12 12 j,
  placed inst 31 12 12 31,
)
