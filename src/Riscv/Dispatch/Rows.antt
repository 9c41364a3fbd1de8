-- ===== src/Riscv/Dispatch/Rows.antt =====
-- The rows of the decoding switches, which scripts/riscv-decoder-gen/gen.py writes.
use kxemu.Base.Shared.{ℕ, List}
use kxemu.Riscv.Decode.Ranges.{InstType}
use kxemu.Riscv.Inst.Exec.{Inst}

-- The instruction functions that are not part of the model: floating point and wfi.
pub data Outside : Type 0 where
  fsgnj_s fsgnjn_s fsgnjx_s fmin_s fmax_s feq_s flt_s fle_s : Outside
  fsgnj_d fsgnjn_d fsgnjx_d fmin_d fmax_d feq_d flt_d fle_d : Outside
  flw fsw fld fsd fmadd_s fmsub_s fnmsub_s fnmadd_s : Outside
  fmadd_d fnmsub_d fnmadd_d fadd_s fsub_s fmul_s fdiv_s fadd_d : Outside
  fsub_d fmul_d fdiv_d fsqrt_s fcvt_w_s fcvt_wu_s fcvt_l_s fcvt_lu_s : Outside
  fmv_x_w fcvt_s_w fcvt_s_wu fcvt_s_l fcvt_s_lu fsqrt_d fcvt_s_d fcvt_d_s : Outside
  fcvt_w_d fcvt_wu_d fcvt_l_d fcvt_lu_d fcvt_d_w fcvt_d_wu fcvt_d_l fcvt_d_lu : Outside
  fclass_s fmv_w_x fclass_d fmv_x_d fmv_d_x wfi c_fldsp c_fsdsp : Outside
  c_fld c_fsd : Outside

-- What a `case` does: decode the fields of a type (of none for `n`) and run an instruction function.
pub data Target : Type 0 where
  typed : Inst → InstType → Target
  plain : Inst → Target
  outside : Outside → Target
  invalid : Target

-- `case key:`
pub data Row : Type 0 where
  row : ℕ → Target → Row

-- `switch (inst & mask)`
pub data Group : Type 0 where
  group : ℕ → List Row → Group
