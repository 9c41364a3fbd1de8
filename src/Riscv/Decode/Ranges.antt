-- ===== src/Riscv/Decode/Ranges.antt =====
-- The registers that the decoders of decode.cpp name, over all instruction types.
use kxemu.Base.Shared.{
  ℕ, ◌+◌, ◌-◌, ◌^◌, ◌<◌, ◌≡◌, refl, arith, Bool, true, false, ◌==◌, if◌then◌else◌, Bool-cases, inl,
  inr, ap,
}
use kxemu.Base.Digits.{bit_or-zero}
use kxemu.Riscv.Decode
use kxemu.Riscv.Decode.Compressed
use kxemu.Riscv.Decode.{DecodeInfo, rd_of, bits}
use kxemu.Riscv.Decode.Fields.{bits-lt}

-- The second field of the lines in src/cpu/riscv/instpat, but for the floating-point types.
pub data InstType : Type 0 where
  r i shifti shiftiw s b j auipc lui csrr csri : InstType
  c_lwsp c_swsp c_lwsw c_j c_jalr c_b c_li c_lui c_addi c_addi16sp c_addi4spn : InstType
  c_slli c_i c_shifti c_mvadd c_r c_ldsp c_sdsp c_ldsd : InstType

unfoldable pub decode_insttype : InstType → ℕ → ℕ → DecodeInfo → DecodeInfo
decode_insttype InstType.r = Decode.decode_r
decode_insttype InstType.i = Decode.decode_i
decode_insttype InstType.shifti = Decode.decode_shifti
decode_insttype InstType.shiftiw = Decode.decode_shiftiw
decode_insttype InstType.s = Decode.decode_s
decode_insttype InstType.b = Decode.decode_b
decode_insttype InstType.j = Decode.decode_j
decode_insttype InstType.auipc = Decode.decode_auipc
decode_insttype InstType.lui = Decode.decode_lui
decode_insttype InstType.csrr = Decode.decode_csrr
decode_insttype InstType.csri = Decode.decode_csri
decode_insttype InstType.c_lwsp = Compressed.decode_c_lwsp
decode_insttype InstType.c_swsp = Compressed.decode_c_swsp
decode_insttype InstType.c_lwsw = Compressed.decode_c_lwsw
decode_insttype InstType.c_j = Compressed.decode_c_j
decode_insttype InstType.c_jalr = Compressed.decode_c_jalr
decode_insttype InstType.c_b = Compressed.decode_c_b
decode_insttype InstType.c_li = Compressed.decode_c_li
decode_insttype InstType.c_lui = Compressed.decode_c_lui
decode_insttype InstType.c_addi = Compressed.decode_c_addi
decode_insttype InstType.c_addi16sp = Compressed.decode_c_addi16sp
decode_insttype InstType.c_addi4spn = Compressed.decode_c_addi4spn
decode_insttype InstType.c_slli = Compressed.decode_c_slli
decode_insttype InstType.c_i = Compressed.decode_c_i
decode_insttype InstType.c_shifti = Compressed.decode_c_shifti
decode_insttype InstType.c_mvadd = Compressed.decode_c_mvadd
decode_insttype InstType.c_r = Compressed.decode_c_r
decode_insttype InstType.c_ldsp = Compressed.decode_c_ldsp
decode_insttype InstType.c_sdsp = Compressed.decode_c_sdsp
decode_insttype InstType.c_ldsd = Compressed.decode_c_ldsd

-- Which registers a type sets.
unfoldable pub sets_rd : InstType → Bool
sets_rd InstType.s = false
sets_rd InstType.b = false
sets_rd InstType.c_swsp = false
sets_rd InstType.c_j = false
sets_rd InstType.c_jalr = false
sets_rd InstType.c_b = false
sets_rd InstType.c_addi16sp = false
sets_rd InstType.c_sdsp = false
sets_rd _ = true

unfoldable pub sets_rs1 : InstType → Bool
sets_rs1 InstType.r = true
sets_rs1 InstType.i = true
sets_rs1 InstType.shifti = true
sets_rs1 InstType.shiftiw = true
sets_rs1 InstType.s = true
sets_rs1 InstType.b = true
sets_rs1 InstType.csrr = true
sets_rs1 InstType.c_lwsw = true
sets_rs1 InstType.c_j = true
sets_rs1 InstType.c_jalr = true
sets_rs1 InstType.c_b = true
sets_rs1 InstType.c_ldsd = true
sets_rs1 _ = false

unfoldable pub sets_rs2 : InstType → Bool
sets_rs2 InstType.r = true
sets_rs2 InstType.s = true
sets_rs2 InstType.b = true
sets_rs2 InstType.c_swsp = true
sets_rs2 InstType.c_lwsw = true
sets_rs2 InstType.c_mvadd = true
sets_rs2 InstType.c_r = true
sets_rs2 InstType.c_sdsp = true
sets_rs2 InstType.c_ldsd = true
sets_rs2 _ = false

rd_of_lem : (v : ℕ) → v < 32 → rd_of v ≡ (if v == 0 then 32 else v)
unfolding rd_of
rd_of_lem v h = elim (Bool-cases (v == 0)) [
  | inl p ↦ let e : v ≡ 0 = ground arith in rw e refl
  | inr p ↦ ground (arith, bit_or-zero 5 v h)
]

full :
    (inst hi lo : ℕ)
    → hi ≡ lo + 4
    → (0 < rd_of (bits inst hi lo)) × (rd_of (bits inst hi lo) < 33) × (bits inst hi lo < 33)
full inst hi lo h =
    ground (arith, rd_of_lem (bits inst hi lo), bits-lt inst hi lo, ap (λ t. 2 ^ (t - lo + 1)) h)

bits-lt_8 : (inst hi lo : ℕ) → hi ≡ lo + 2 → bits inst hi lo < 8
bits-lt_8 inst hi lo h = ground (arith, bits-lt inst hi lo, ap (λ t. 2 ^ (t - lo + 1)) h)

short :
    (inst hi lo : ℕ)
    → hi ≡ lo + 2
    → (0 < rd_of (bits inst hi lo + 8))
      × (rd_of (bits inst hi lo + 8) < 33)
      × (bits inst hi lo + 8 < 33)
short inst hi lo h = ground (arith, rd_of_lem (bits inst hi lo + 8), bits-lt_8 inst hi lo h)

pub decode_insttype_range :
    (t : InstType) (inst pc : ℕ) (d : DecodeInfo)
    → (0 < (if sets_rd t then (decode_insttype t inst pc d).rd else 1))
      × ((if sets_rd t then (decode_insttype t inst pc d).rd else 1) < 33)
      × ((if sets_rs1 t then (decode_insttype t inst pc d).rs1 else 0) < 33)
      × ((if sets_rs2 t then (decode_insttype t inst pc d).rs2 else 0) < 33)
unfolding decode_insttype sets_rd sets_rs1 sets_rs2 Decode.decode_r Decode.decode_i
    Decode.decode_shifti Decode.decode_shiftiw Decode.decode_s Decode.decode_b Decode.decode_j
    Decode.decode_auipc Decode.decode_lui Decode.decode_csrr Decode.decode_csri
    Compressed.decode_c_lwsp Compressed.decode_c_swsp Compressed.decode_c_lwsw Compressed.decode_c_j
    Compressed.decode_c_jalr Compressed.decode_c_b Compressed.decode_c_li Compressed.decode_c_lui
    Compressed.decode_c_addi Compressed.decode_c_addi16sp Compressed.decode_c_addi4spn
    Compressed.decode_c_slli Compressed.decode_c_i Compressed.decode_c_shifti
    Compressed.decode_c_mvadd Compressed.decode_c_r Compressed.decode_c_ldsp
    Compressed.decode_c_sdsp Compressed.decode_c_ldsd
decode_insttype_range _ inst pc d = ground (
  arith,
  full inst 11 7 refl,
  full inst 19 15 refl,
  full inst 24 20 refl,
  full inst 6 2 refl,
  short inst 4 2 refl,
  short inst 9 7 refl,
)
