-- ===== src/Riscv/Execute/Rd.antt =====
-- That the decoding tables give a destination to each instruction function that writes one.
use kxemu.Base.Shared.{
  ℕ, ◌≡◌, refl, sym, ◌∙◌, arith, bit_and, Bool, true, false, not, ◌&&◌, ◌||◌, ◌==◌, List, [], ◌∷◌,
  some, Bool-cases, Option-cases, inl, inr,
}
use kxemu.Riscv.Decode.{DecodeInfo}
use kxemu.Riscv.Decode.Ranges.{sets_rd}
use kxemu.Riscv.Inst.Base
use kxemu.Riscv.Inst.Compressed
use kxemu.Riscv.Inst.Exec.{Inst, exec}
use kxemu.Riscv.Inst.Zero.{KeepsZero, exec-KeepsZero}
use kxemu.Riscv.Dispatch.{decode, find_case}
use kxemu.Riscv.Dispatch.Rows.{Row, row, Group, group, Target, typed, plain}
use kxemu.Riscv.Dispatch.Base.{base_table}
use kxemu.Riscv.Dispatch.Compressed.{compressed_table}

-- The instruction functions that do not read `decodeInfo.rd`.
pub uses_rd : Inst → Bool
uses_rd Inst.i_sb = false
uses_rd Inst.i_sh = false
uses_rd Inst.i_sw = false
uses_rd Inst.i_sd = false
uses_rd Inst.i_beq = false
uses_rd Inst.i_bne = false
uses_rd Inst.i_bge = false
uses_rd Inst.i_bgeu = false
uses_rd Inst.i_blt = false
uses_rd Inst.i_bltu = false
uses_rd Inst.i_c_swsp = false
uses_rd Inst.i_c_sw = false
uses_rd Inst.i_c_sdsp = false
uses_rd Inst.i_c_sd = false
uses_rd Inst.i_c_j = false
uses_rd Inst.i_c_jal = false
uses_rd Inst.i_c_jr = false
uses_rd Inst.i_c_jalr = false
uses_rd Inst.i_c_beqz = false
uses_rd Inst.i_c_bnez = false
uses_rd Inst.i_c_addi16sp = false
uses_rd Inst.i_c_nop = false
uses_rd Inst.i_ecall = false
uses_rd Inst.i_ebreak = false
uses_rd Inst.i_mret = false
uses_rd Inst.i_sret = false
uses_rd Inst.i_sfence_vma = false
uses_rd Inst.i_fence = false
uses_rd Inst.i_fence_i = false
uses_rd _ = true

-- With any destination they do the same.
exec-any_rd :
    (i : Inst) (d : DecodeInfo) → uses_rd i ≡ false → exec i d ≡ exec i (record d { rd = 1 })
unfolding uses_rd exec Base.do_sb Base.do_sh Base.do_sw Base.do_sd Base.do_beq Base.do_bne
    Base.do_bge Base.do_bgeu Base.do_blt Base.do_bltu Compressed.do_c_swsp Compressed.do_c_sw
    Compressed.do_c_sdsp Compressed.do_c_sd Compressed.do_c_j Compressed.do_c_jal Compressed.do_c_jr
    Compressed.do_c_jalr Compressed.do_c_beqz Compressed.do_c_bnez Compressed.do_c_addi16sp
    Compressed.do_c_nop
exec-any_rd Inst.i_sb d h = refl
exec-any_rd Inst.i_sh d h = refl
exec-any_rd Inst.i_sw d h = refl
exec-any_rd Inst.i_sd d h = refl
exec-any_rd Inst.i_beq d h = refl
exec-any_rd Inst.i_bne d h = refl
exec-any_rd Inst.i_bge d h = refl
exec-any_rd Inst.i_bgeu d h = refl
exec-any_rd Inst.i_blt d h = refl
exec-any_rd Inst.i_bltu d h = refl
exec-any_rd Inst.i_c_swsp d h = refl
exec-any_rd Inst.i_c_sw d h = refl
exec-any_rd Inst.i_c_sdsp d h = refl
exec-any_rd Inst.i_c_sd d h = refl
exec-any_rd Inst.i_c_j d h = refl
exec-any_rd Inst.i_c_jal d h = refl
exec-any_rd Inst.i_c_jr d h = refl
exec-any_rd Inst.i_c_jalr d h = refl
exec-any_rd Inst.i_c_beqz d h = refl
exec-any_rd Inst.i_c_bnez d h = refl
exec-any_rd Inst.i_c_addi16sp d h = refl
exec-any_rd Inst.i_c_nop d h = refl
exec-any_rd Inst.i_ecall d h = refl
exec-any_rd Inst.i_ebreak d h = refl
exec-any_rd Inst.i_mret d h = refl
exec-any_rd Inst.i_sret d h = refl
exec-any_rd Inst.i_sfence_vma d h = refl
exec-any_rd Inst.i_fence d h = refl
exec-any_rd Inst.i_fence_i d h = refl
exec-any_rd _ d h = cc

pub unset-KeepsZero : (i : Inst) (d : DecodeInfo) → uses_rd i ≡ false → KeepsZero (exec i d)
unset-KeepsZero i d h =
    rw (exec-any_rd i d h) (exec-KeepsZero i (record d { rd = 1 }) (omega arith))

-- A target whose type sets the destination that its function reads.
unfoldable pub is_sound : Target → Bool
is_sound (typed i t) = not (uses_rd i) || sets_rd t
is_sound (plain i) = not (uses_rd i)
is_sound _ = true

rows_sound : List Row → Bool
rows_sound [] = true
rows_sound (row key t ∷ rows) = is_sound t && rows_sound rows

pub table_sound : List Group → Bool
table_sound [] = true
table_sound (group mask rows ∷ groups) = rows_sound rows && table_sound groups

pub tables_sound : table_sound base_table && table_sound compressed_table ≡ true
unfolding table_sound rows_sound is_sound uses_rd sets_rd
tables_sound = refl

pub and_left : (a b : Bool) → a && b ≡ true → a ≡ true
and_left true b h = refl
and_left false b h = h

pub and_right : (a b : Bool) → a && b ≡ true → b ≡ true
and_right true b h = h
and_right false b h = cc

find_case_sound :
    (w : ℕ) (rows : List Row) (t : Target)
    → rows_sound rows ≡ true
    → find_case w rows ≡ some t
    → is_sound t ≡ true
unfolding rows_sound find_case
find_case_sound w [] t h e = cc
find_case_sound w (row key u ∷ rows) t h e = elim (Bool-cases (w == key)) [
  | inl p ↦
      let found : some u ≡ some t = sym (rw p refl) ∙ e in
      let same : u ≡ t = cc in rw (sym same) (and_left (is_sound u) (rows_sound rows) h)
  | inr p ↦
      find_case_sound w rows t (and_right (is_sound u) (rows_sound rows) h) (sym (rw p refl) ∙ e)
]

pub decode_sound :
    (w : ℕ) (groups : List Group) (t : Target)
    → table_sound groups ≡ true
    → decode groups w ≡ some t
    → is_sound t ≡ true
unfolding table_sound decode
decode_sound w [] t h e = cc
decode_sound w (group mask rows ∷ groups) t h e =
    elim (Option-cases (find_case (bit_and w mask) rows)) [
      | inl p ↦
          decode_sound w groups t (and_right (rows_sound rows) (table_sound groups) h)
            (sym (rw (p, decode) refl) ∙ e)
      | inr (u, p) ↦
          let found : some u ≡ some t = sym (rw (p, decode) refl) ∙ e in
          find_case_sound (bit_and w mask) rows t
            (and_left (rows_sound rows) (table_sound groups) h) (p ∙ found)
    ]
