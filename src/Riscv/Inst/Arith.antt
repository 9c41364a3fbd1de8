-- ===== src/Riscv/Inst/Arith.antt =====
-- What the results of base.cpp and mul.cpp are as numbers.
use Prim.{Unit}
use native.Mathlib.Nat.{div-add-mod, mod-lt, mul-le-mul}
use kxemu.Base.Shared.{
  ℕ, ◌+◌, ◌-◌, ◌*◌, ◌^◌, ◌≤◌, ◌<◌, ◌≡◌, arith, true, ◌==◌, ltb, Bool-cases, inl, inr, ◌/◌, ◌%◌, ◌⊎◌,
  if◌then◌else◌,
}
use kxemu.Base.Word.{u64}
use kxemu.Base.Signed.{to_signed, of_signed, sext}
use kxemu.Riscv.Core.{RvCore, M}
use kxemu.Riscv.Decode.{DecodeInfo}
use kxemu.Riscv.Inst.{src1, src2}
use kxemu.Riscv.Inst.Alu.{do_add, do_sub, do_addw, do_subw}
use kxemu.Riscv.Inst.Mul.{do_mul, do_mulhu, do_mulhsu, do_divu, do_remu}

-- The value that an instruction leaves in its destination.
abbrev pub result : (DecodeInfo → M (Unit {0})) → DecodeInfo → RvCore → ℕ
result f d core = (f d core).1.gpr d.rd

-- addw and subw are add and sub, sign-extended from their low 32 digits.
pub addw_low_word :
    (d : DecodeInfo) (core : RvCore)
    → src1 d core < 2 ^ 64
    → src2 d core < 2 ^ 64
    → (result do_addw d core ≡ sext 32 (result do_add d core))
      × (result do_subw d core ≡ sext 32 (result do_sub d core))
unfolding do_add do_sub do_addw do_subw sext to_signed of_signed
addw_low_word d core h k = (ground arith, ground arith)

product-lt : (a b : ℕ) → a < 2 ^ 64 → b < 2 ^ 64 → a * b < 2 ^ 128
product-lt a b h k =
    let x : a ≤ 2 ^ 64 - 1 = omega arith in
    let y : b ≤ 2 ^ 64 - 1 = omega arith in
    let below : a * b ≤ (2 ^ 64 - 1) * (2 ^ 64 - 1) = mul-le-mul x y in omega arith

-- mulhu and mul together are the whole product of two unsigned words.
pub mulhu-mul :
    (d : DecodeInfo) (core : RvCore)
    → src1 d core < 2 ^ 64
    → src2 d core < 2 ^ 64
    → result do_mulhu d core * 2 ^ 64 + result do_mul d core ≡ src1 d core * src2 d core
unfolding do_mulhu do_mul
mulhu-mul d core h k = ground (arith, product-lt (src1 d core) (src2 d core) h k)

-- divu and remu, a divisor of zero included, give back the dividend, with a remainder below the
-- divisor unless that is zero; then the quotient is all ones.
pub divu-remu :
    (d : DecodeInfo) (core : RvCore)
    → src1 d core < 2 ^ 64
    → (u64 (result do_divu d core * src2 d core + result do_remu d core) ≡ src1 d core)
      × (((src2 d core ≡ 0) × (result do_divu d core ≡ 2 ^ 64 - 1))
          ⊎ ((0 < src2 d core) × (result do_remu d core < src2 d core)))
unfolding do_divu do_remu
divu-remu d core h = (
  ground (arith, div-add-mod (src1 d core) (src2 d core), mod-lt (src1 d core)),
  elim (Bool-cases (src2 d core == 0)) [
    | inl z ↦ inl (ground arith, ground arith)
    | inr n ↦
        let k : 0 < src2 d core = ground arith in inr (k, ground (arith, mod-lt (src1 d core) k))
  ],
)

-- A word as a signed number, in the 128 digits of `sdword_t`.
abbrev pub sign_extended : ℕ → ℕ
sign_extended a = if ltb a (2 ^ 63) then a else a + (2 ^ 128 - 2 ^ 64)

-- The high word of the product of a signed and an unsigned word.
abbrev pub high_signed_unsigned : ℕ → ℕ → ℕ
high_signed_unsigned a b = (sign_extended a * b) % 2 ^ 128 / 2 ^ 64

high_word_gap :
    (a b : ℕ)
    → a < 2 ^ 64
    → b < 2 ^ 64
    → u64 ((a * b) % 2 ^ 128 / 2 ^ 64)
      ≡ u64 (high_signed_unsigned a b + (if ltb a (2 ^ 63) then 0 else b))
high_word_gap a b h k = elim (Bool-cases (ltb a (2 ^ 63))) [
  | inl p ↦ rw p (omega arith)
  | inr p ↦
      let apart : (a + (2 ^ 128 - 2 ^ 64)) * b ≡ a * b + (2 ^ 128 - 2 ^ 64) * b = omega arith in
      rw (p, apart) (omega (arith, product-lt a b h k))
]

-- For words in rs1 and rs2, mulhsu leaves the high word of the signed-by-unsigned product when rs1 is not
-- negative; when rs1 is negative its result is that word plus rs2, modulo 2^64.
pub mulhsu_adds_multiplier :
    (d : DecodeInfo) (core : RvCore)
    → src1 d core < 2 ^ 64
    → src2 d core < 2 ^ 64
    → result do_mulhsu d core
      ≡ u64 (
          high_signed_unsigned (src1 d core) (src2 d core)
          + (if ltb (src1 d core) (2 ^ 63) then 0 else src2 d core))
unfolding do_mulhsu
mulhsu_adds_multiplier d core h k =
    let same : (d.rd == d.rd) ≡ true = ground arith in
    rw same (high_word_gap (src1 d core) (src2 d core) h k)
