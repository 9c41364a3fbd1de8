-- ===== src/Riscv/Decode/Compressed.antt =====
-- The decoders of the compressed instructions in src/cpu/riscv/inst/decode.cpp.
use kxemu.Base.Shared.{ℕ, ◌+◌, bit_or}
use kxemu.Base.Word.{add64, ◌<<<◌}
use kxemu.Riscv.Decode.{DecodeInfo, bits, sext_from, rd_of}

unfoldable pub decode_c_lwsp : ℕ → ℕ → DecodeInfo → DecodeInfo
decode_c_lwsp inst pc d = record d {
  rd = rd_of (bits inst 11 7);
  imm = bit_or (bit_or (bits inst 12 12 <<< 5) (bits inst 3 2 <<< 6)) (bits inst 6 4 <<< 2);
}

unfoldable pub decode_c_swsp : ℕ → ℕ → DecodeInfo → DecodeInfo
decode_c_swsp inst pc d = record d {
  rs2 = bits inst 6 2;
  imm = bit_or (bits inst 8 7 <<< 6) (bits inst 12 9 <<< 2);
}

unfoldable pub decode_c_lwsw : ℕ → ℕ → DecodeInfo → DecodeInfo
decode_c_lwsw inst pc d = record d {
  rd = rd_of (bits inst 4 2 + 8);
  rs1 = bits inst 9 7 + 8;
  rs2 = bits inst 4 2 + 8;
  imm = bit_or (bit_or (bits inst 5 5 <<< 6) (bits inst 12 10 <<< 3)) (bits inst 6 6 <<< 2);
}

unfoldable pub imm_c_j : ℕ → ℕ
imm_c_j inst =
    sext_from
      (bit_or
        (bit_or
          (bit_or
            (bit_or
              (bit_or
                (bit_or (bit_or (bits inst 12 12 <<< 11) (bits inst 8 8 <<< 10))
                  (bits inst 10 9 <<< 8))
                (bits inst 7 7 <<< 6))
              (bits inst 6 6 <<< 7))
            (bits inst 2 2 <<< 5))
          (bits inst 11 11 <<< 4))
        (bits inst 5 3 <<< 1))
      12

unfoldable pub decode_c_j : ℕ → ℕ → DecodeInfo → DecodeInfo
decode_c_j inst pc d = record d { rs1 = bits inst 11 7; npc = add64 pc (imm_c_j inst) }

unfoldable pub decode_c_jalr : ℕ → ℕ → DecodeInfo → DecodeInfo
decode_c_jalr inst pc d = record d { rs1 = bits inst 11 7; npc = add64 pc 2 }

unfoldable pub imm_c_b : ℕ → ℕ
imm_c_b inst =
    sext_from
      (bit_or
        (bit_or
          (bit_or (bit_or (bits inst 12 12 <<< 8) (bits inst 6 5 <<< 6)) (bits inst 2 2 <<< 5))
          (bits inst 11 10 <<< 3))
        (bits inst 4 3 <<< 1))
      9

unfoldable pub decode_c_b : ℕ → ℕ → DecodeInfo → DecodeInfo
decode_c_b inst pc d = record d { rs1 = bits inst 9 7 + 8; npc = add64 pc (imm_c_b inst) }

-- The six digits 12 and 6 to 2.
unfoldable pub imm_c : ℕ → ℕ
imm_c inst = bit_or (bits inst 12 12 <<< 5) (bits inst 6 2)

unfoldable pub decode_c_li : ℕ → ℕ → DecodeInfo → DecodeInfo
decode_c_li inst pc d = record d { rd = rd_of (bits inst 11 7); imm = sext_from (imm_c inst) 6 }

unfoldable pub decode_c_lui : ℕ → ℕ → DecodeInfo → DecodeInfo
decode_c_lui inst pc d = record d {
  rd = rd_of (bits inst 11 7);
  imm = sext_from (bit_or (bits inst 12 12 <<< 17) (bits inst 6 2 <<< 12)) 18;
}

unfoldable pub decode_c_addi : ℕ → ℕ → DecodeInfo → DecodeInfo
decode_c_addi inst pc d = record d { rd = rd_of (bits inst 11 7); imm = sext_from (imm_c inst) 6 }

unfoldable pub decode_c_addi16sp : ℕ → ℕ → DecodeInfo → DecodeInfo
decode_c_addi16sp inst pc d = record d {
  imm =
      sext_from
        (bit_or
          (bit_or
            (bit_or (bit_or (bits inst 12 12 <<< 9) (bits inst 4 3 <<< 7)) (bits inst 5 5 <<< 6))
            (bits inst 2 2 <<< 5))
          (bits inst 6 6 <<< 4))
        10;
}

unfoldable pub decode_c_addi4spn : ℕ → ℕ → DecodeInfo → DecodeInfo
decode_c_addi4spn inst pc d = record d {
  rd = rd_of (bits inst 4 2 + 8);
  imm =
      bit_or (bit_or (bit_or (bits inst 10 7 <<< 6) (bits inst 12 11 <<< 4)) (bits inst 5 5 <<< 3))
        (bits inst 6 6 <<< 2);
}

unfoldable pub decode_c_slli : ℕ → ℕ → DecodeInfo → DecodeInfo
decode_c_slli inst pc d = record d { rd = rd_of (bits inst 11 7); imm = imm_c inst }

unfoldable pub decode_c_i : ℕ → ℕ → DecodeInfo → DecodeInfo
decode_c_i inst pc d = record d { rd = rd_of (bits inst 9 7 + 8); imm = sext_from (imm_c inst) 6 }

unfoldable pub decode_c_shifti : ℕ → ℕ → DecodeInfo → DecodeInfo
decode_c_shifti inst pc d = record d { rd = rd_of (bits inst 9 7 + 8); imm = imm_c inst }

unfoldable pub decode_c_mvadd : ℕ → ℕ → DecodeInfo → DecodeInfo
decode_c_mvadd inst pc d = record d { rd = rd_of (bits inst 11 7); rs2 = bits inst 6 2 }

unfoldable pub decode_c_r : ℕ → ℕ → DecodeInfo → DecodeInfo
decode_c_r inst pc d = record d { rd = rd_of (bits inst 9 7 + 8); rs2 = bits inst 4 2 + 8 }

unfoldable pub decode_c_ldsp : ℕ → ℕ → DecodeInfo → DecodeInfo
decode_c_ldsp inst pc d = record d {
  rd = rd_of (bits inst 11 7);
  imm = bit_or (bit_or (bits inst 12 12 <<< 5) (bits inst 4 2 <<< 6)) (bits inst 6 5 <<< 3);
}

unfoldable pub decode_c_sdsp : ℕ → ℕ → DecodeInfo → DecodeInfo
decode_c_sdsp inst pc d = record d {
  rs2 = bits inst 6 2;
  imm = bit_or (bits inst 9 7 <<< 6) (bits inst 12 10 <<< 3);
}

unfoldable pub decode_c_ldsd : ℕ → ℕ → DecodeInfo → DecodeInfo
decode_c_ldsd inst pc d = record d {
  rd = rd_of (bits inst 4 2 + 8);
  rs1 = bits inst 9 7 + 8;
  rs2 = bits inst 4 2 + 8;
  imm = bit_or (bits inst 6 5 <<< 6) (bits inst 12 10 <<< 3);
}
