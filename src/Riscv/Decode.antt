-- ===== src/Riscv/Decode.antt =====
-- src/cpu/riscv/inst/decode.cpp: the fields of an instruction word. Each function takes `inst`, `pc`
-- and what `decodeInfo` held before, and sets the fields that its macro calls name.
pub mod Compressed
pub mod Fields
pub mod Immediates
pub mod Ranges
mod Tests
use kxemu.Base.Shared.{ℕ, ◌+◌, ◌-◌, ◌*◌, ◌/◌, ◌%◌, ◌^◌, bit_and, bit_or, Bool, ◌==◌}
use kxemu.Base.Word.{u32, add64, of_bool, ◌<<<◌, ◌>>>◌}
use kxemu.Base.Signed.{to_signed, of_signed, shr_ℤ}

-- struct DecodeInfo of core.hpp. There `imm`, `npc` and `rs3` share their place, and `csr` lies over
-- `rs2` and `flag`; no decoder sets two of them.
pub record DecodeInfo : Type 0 where
  pub rd : ℕ
  pub rs1 : ℕ
  pub rs2 : ℕ
  pub flag : ℕ
  pub csr : ℕ
  pub imm : ℕ
  pub npc : ℕ
  pub rs3 : ℕ

-- BITS(hi, lo)
unfoldable pub bits : ℕ → ℕ → ℕ → ℕ
bits inst hi lo = bit_and (inst >>> lo) (2 ^ (hi - lo + 1) - 1)

-- SEXT(bits, from), as the word that it is then stored in
unfoldable pub sext_from : ℕ → ℕ → ℕ
sext_from v from = of_signed 64 (shr_ℤ (to_signed 32 (u32 (v <<< (32 - from)))) (32 - from))

-- The value that set_rd stores: writes to x0 go to the element behind the registers.
unfoldable pub rd_of : ℕ → ℕ
rd_of v = bit_or v (of_bool (v == 0) <<< 5)

abbrev pub imm_i : ℕ → ℕ
imm_i inst = sext_from (bits inst 31 20) 12

unfoldable pub imm_s : ℕ → ℕ
imm_s inst = sext_from (bit_or (bits inst 31 25 <<< 5) (bits inst 11 7)) 12

unfoldable pub imm_b : ℕ → ℕ
imm_b inst =
    sext_from
      (bit_or
        (bit_or (bit_or (bits inst 31 31 <<< 12) (bits inst 30 25 <<< 5)) (bits inst 11 8 <<< 1))
        (bits inst 7 7 <<< 11))
      13

unfoldable pub imm_j : ℕ → ℕ
imm_j inst =
    sext_from
      (bit_or
        (bit_or (bit_or (bits inst 31 31 <<< 20) (bits inst 30 21 <<< 1)) (bits inst 20 20 <<< 11))
        (bits inst 19 12 <<< 12))
      21

unfoldable pub imm_u : ℕ → ℕ
imm_u inst = sext_from (bits inst 31 12 <<< 12) 32

unfoldable pub decode_r : ℕ → ℕ → DecodeInfo → DecodeInfo
decode_r inst pc d = record d {
  rd = rd_of (bits inst 11 7);
  rs1 = bits inst 19 15;
  rs2 = bits inst 24 20;
}

unfoldable pub decode_i : ℕ → ℕ → DecodeInfo → DecodeInfo
decode_i inst pc d = record d {
  rd = rd_of (bits inst 11 7);
  rs1 = bits inst 19 15;
  imm = imm_i inst;
}

unfoldable pub decode_shifti : ℕ → ℕ → DecodeInfo → DecodeInfo
decode_shifti inst pc d = record d {
  rd = rd_of (bits inst 11 7);
  rs1 = bits inst 19 15;
  imm = bits inst 25 20;
}

unfoldable pub decode_shiftiw : ℕ → ℕ → DecodeInfo → DecodeInfo
decode_shiftiw inst pc d = record d {
  rd = rd_of (bits inst 11 7);
  rs1 = bits inst 19 15;
  imm = bits inst 24 20;
}

unfoldable pub decode_s : ℕ → ℕ → DecodeInfo → DecodeInfo
decode_s inst pc d = record d { rs1 = bits inst 19 15; rs2 = bits inst 24 20; imm = imm_s inst }

unfoldable pub decode_b : ℕ → ℕ → DecodeInfo → DecodeInfo
decode_b inst pc d = record d {
  rs1 = bits inst 19 15;
  rs2 = bits inst 24 20;
  npc = add64 pc (imm_b inst);
}

unfoldable pub decode_j : ℕ → ℕ → DecodeInfo → DecodeInfo
decode_j inst pc d = record d { rd = rd_of (bits inst 11 7); imm = imm_j inst }

unfoldable pub decode_auipc : ℕ → ℕ → DecodeInfo → DecodeInfo
decode_auipc inst pc d = record d { rd = rd_of (bits inst 11 7); imm = add64 pc (imm_u inst) }

unfoldable pub decode_lui : ℕ → ℕ → DecodeInfo → DecodeInfo
decode_lui inst pc d = record d { rd = rd_of (bits inst 11 7); imm = imm_u inst }

-- The floating-point register 0 is a register like the others: set_frd keeps its number.
unfoldable pub decode_i_f : ℕ → ℕ → DecodeInfo → DecodeInfo
decode_i_f inst pc d = record d { rd = bits inst 11 7; rs1 = bits inst 19 15; imm = imm_i inst }

unfoldable pub decode_r4_frm : ℕ → ℕ → DecodeInfo → DecodeInfo
decode_r4_frm inst pc d = record d {
  rd = bits inst 11 7;
  rs1 = bits inst 19 15;
  rs2 = bits inst 24 20;
  rs3 = bits inst 31 27;
  flag = bits inst 14 12;
}

unfoldable pub decode_r_frm : ℕ → ℕ → DecodeInfo → DecodeInfo
decode_r_frm inst pc d = record d {
  rd = bits inst 11 7;
  rs1 = bits inst 19 15;
  rs2 = bits inst 24 20;
  flag = bits inst 14 12;
}

unfoldable pub decode_r_f : ℕ → ℕ → DecodeInfo → DecodeInfo
decode_r_f inst pc d = record d {
  rd = bits inst 11 7;
  rs1 = bits inst 19 15;
  rs2 = bits inst 24 20;
}

unfoldable pub decode_csrr : ℕ → ℕ → DecodeInfo → DecodeInfo
decode_csrr inst pc d = record d {
  rd = rd_of (bits inst 11 7);
  rs1 = bits inst 19 15;
  csr = bits inst 31 20;
}

unfoldable pub decode_csri : ℕ → ℕ → DecodeInfo → DecodeInfo
decode_csri inst pc d = record d {
  rd = rd_of (bits inst 11 7);
  csr = bits inst 31 20;
  imm = bits inst 19 15;
}
