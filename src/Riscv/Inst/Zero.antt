-- ===== src/Riscv/Inst/Zero.antt =====
-- The register x0 reads as zero because no instruction function ever writes `gpr[0]`.
use Prim.{Unit, tt}
use kxemu.Base.Shared.{
  ℕ, ◌<◌, ◌≡◌, refl, ap, ◌∙◌, arith, bit_or, bit_and, Bool, true, false, not, ◌==◌, if◌then◌else◌,
}
use kxemu.Base.Word.{add64, not64}
use kxemu.Base.Signed.{sext}
use kxemu.Riscv.Def.{csr_read_only}
use kxemu.Riscv.Core.{
  RvCore, M, Result, ok, trap, panic, undefined, ◌>>=◌, set_gpr, run_callback, write_csr, read_csr,
  refresh_mstatus, vm_translate, tlb_fence, stimecmp_written, clear_interrupt, set_priv_mode,
}
use kxemu.Riscv.Csr
use kxemu.Riscv.Csr.{Callback}
use kxemu.Riscv.Decode.{DecodeInfo}
use kxemu.Riscv.Memory.{memory_load, memory_store, bus_read}
use kxemu.Riscv.Memory.Frame.{IsSame, load_and_store-Keeps}
use kxemu.Riscv.Trap
use kxemu.Riscv.Trap.{do_invalid_inst}
use kxemu.Riscv.Zicsr
use kxemu.Riscv.Zicsr.{write_checked, read_checked}
use kxemu.Riscv.Inst.{src1, src2, set_dest}
use kxemu.Riscv.Inst.Alu
use kxemu.Riscv.Inst.Base
use kxemu.Riscv.Inst.Mul
use kxemu.Riscv.Inst.Compressed
use kxemu.Riscv.Inst.Fence
use kxemu.Riscv.Inst.Atomic
use kxemu.Riscv.Inst.Atomic.{
  amo_address, load_reserved_at, do_load_reserved, store_conditional_at, do_store_conditional,
  compare_exchange, reserve, amo_at, do_amo_inst,
}
use kxemu.Riscv.Inst.Atomic.Address.{amo_address-Keeps}
use kxemu.Device.Bus.Block.{Amo}
use kxemu.Riscv.Inst.Exec.{Inst, exec}

-- `gpr[0]` and the running state of two states of a core.
pub record IsAlike (a b : RvCore) : Type 0 where
  pub zero : a.gpr 0 ≡ b.gpr 0
  pub state : a.state ≡ b.state

pub IsAlike-refl : (a : RvCore) → IsAlike a a
IsAlike-refl a = record { zero = refl; state = refl }

pub IsAlike-trans : {a b c : RvCore} → IsAlike a b → IsAlike b c → IsAlike a c
IsAlike-trans x y = record { zero = x.zero ∙ y.zero; state = x.state ∙ y.state }

pub IsSame-IsAlike : {a b : RvCore} → IsSame a b → IsAlike a b
IsSame-IsAlike x = record { zero = ap (λ g. g 0) x.gpr; state = x.state }

-- An action that leaves both alone.
abbrev pub KeepsZero : {A : Type 0} → M A → Type 0
KeepsZero m = (core : RvCore) → IsAlike (m core).1 core

pub settle :
    {A B : Type 0} (f : A → M B) (r : Result A) (core core' : RvCore)
    → ((a : A) → KeepsZero (f a))
    → IsAlike core' core
    → IsAlike (((λ c. (r, core')) >>= f) core).1 core
settle f (ok a) core core' k h = IsAlike-trans (k a core') h
settle f (trap code value) core core' k h = h
settle f panic core core' k h = h
settle f undefined core core' k h = h

dest-KeepsZero : (d : DecodeInfo) (v : ℕ) → 0 < d.rd → KeepsZero (set_dest d v)
dest-KeepsZero d v h core = ground arith

load-KeepsZero :
    (addr len : ℕ) (f : ℕ → ℕ) (d : DecodeInfo)
    → 0 < d.rd
    → KeepsZero (memory_load addr len >>= λ v. set_dest d (f v))
load-KeepsZero addr len f d h core =
    settle (λ v. set_dest d (f v)) (memory_load addr len core).0 core (memory_load addr len core).1
      (λ v. dest-KeepsZero d (f v) h) (IsSame-IsAlike (load_and_store-Keeps addr 0 len core).0)

store-KeepsZero : (addr v len : ℕ) → KeepsZero (memory_store addr v len)
store-KeepsZero addr v len core = IsSame-IsAlike (load_and_store-Keeps addr v len core).1

require-KeepsZero : (b : Bool) (m : M (Unit {0})) → KeepsZero m → KeepsZero (Compressed.require b m)
unfolding do_invalid_inst
require-KeepsZero true m k core = k core
require-KeepsZero false m k core = IsAlike-refl core

callback-KeepsZero : (c : Callback) (core : RvCore) → IsAlike (run_callback c core) core
unfolding run_callback refresh_mstatus vm_translate tlb_fence stimecmp_written clear_interrupt
callback-KeepsZero Callback.no_callback core = record { zero = refl; state = refl }
callback-KeepsZero Callback.update_stimecmp core = record { zero = refl; state = refl }
callback-KeepsZero Callback.update_vm_translate core = record { zero = refl; state = refl }
callback-KeepsZero Callback.update_mstatus core = record { zero = refl; state = refl }

pub write_csr-KeepsZero : (a v : ℕ) (core : RvCore) → IsAlike (write_csr a v core).1 core
unfolding write_csr
write_csr-KeepsZero a v core =
    let core' = record core { csr = (Csr.write_csr a v core.csr).1 } in
    IsAlike-trans (callback-KeepsZero (Csr.write_csr a v core.csr).2 core')
      (record { zero = refl; state = refl })

branch :
    (b : Bool) (x y : Result (Unit {0}) × RvCore) (core : RvCore)
    → IsAlike x.1 core
    → IsAlike y.1 core
    → IsAlike (if b then x else y).1 core
branch true x y core h k = h
branch false x y core h k = k

write_checked-KeepsZero :
    (a v : ℕ) (next : M (Unit {0})) → KeepsZero next → KeepsZero (write_checked a v next)
unfolding write_checked do_invalid_inst
write_checked-KeepsZero a v next k core =
    let core' = (write_csr a v core).1 in
    let kept : IsAlike core' core = write_csr-KeepsZero a v core in
    branch (csr_read_only a) (do_invalid_inst core)
      (if (write_csr a v core).0 then next core' else do_invalid_inst core') core
      (IsAlike-refl core)
      (branch (write_csr a v core).0 (next core') (do_invalid_inst core') core
        (IsAlike-trans (k core') kept) kept)

read_checked-KeepsZero :
    (a : ℕ) (next : ℕ → M (Unit {0}))
    → ((v : ℕ) → KeepsZero (next v))
    → KeepsZero (read_checked a next)
unfolding read_checked do_invalid_inst
read_checked-KeepsZero a next k core =
    branch (read_csr a core).0 (next (read_csr a core).1 core) (do_invalid_inst core) core
      (k (read_csr a core).1 core) (IsAlike-refl core)

set_or_write :
    (b : Bool) (a v : ℕ) (x : ℕ) (d : DecodeInfo) (core : RvCore)
    → 0 < d.rd
    → IsAlike (if b then set_dest d x core else write_checked a v (set_dest d x) core).1 core
set_or_write b a v x d core h =
    branch b (set_dest d x core) (write_checked a v (set_dest d x) core) core
      (dest-KeepsZero d x h core)
      (write_checked-KeepsZero a v (set_dest d x) (dest-KeepsZero d x h) core)

csrrw-KeepsZero : (d : DecodeInfo) → 0 < d.rd → KeepsZero (Zicsr.do_csrrw d)
unfolding Zicsr.do_csrrw do_invalid_inst
csrrw-KeepsZero d h core =
    let put : ℕ → M (Unit {0}) = λ v c. write_checked d.csr (src1 d c) (set_dest d v) c in
    branch (csr_read_only d.csr) (do_invalid_inst core)
      (if d.rd == 32 then put 0 core else read_checked d.csr put core) core (IsAlike-refl core)
      (branch (d.rd == 32) (put 0 core) (read_checked d.csr put core) core
        (write_checked-KeepsZero d.csr (src1 d core) (set_dest d 0) (dest-KeepsZero d 0 h) core)
        (read_checked-KeepsZero d.csr put
          (λ v c. write_checked-KeepsZero d.csr (src1 d c) (set_dest d v) (dest-KeepsZero d v h) c)
          core))

csrrwi-KeepsZero : (d : DecodeInfo) → 0 < d.rd → KeepsZero (Zicsr.do_csrrwi d)
unfolding Zicsr.do_csrrwi do_invalid_inst
csrrwi-KeepsZero d h core =
    let done : M (Unit {0}) = λ c. (ok tt, c) in
    let put : ℕ → M (Unit {0}) = λ v c. write_checked d.csr d.imm done (set_gpr d.rd v c) in
    branch (csr_read_only d.csr) (do_invalid_inst core)
      (if d.rd == 32 then write_checked d.csr d.imm done core else read_checked d.csr put core) core
      (IsAlike-refl core)
      (branch (d.rd == 32) (write_checked d.csr d.imm done core) (read_checked d.csr put core) core
        (write_checked-KeepsZero d.csr d.imm done IsAlike-refl core)
        (read_checked-KeepsZero d.csr put
          (λ v c.
            IsAlike-trans (write_checked-KeepsZero d.csr d.imm done IsAlike-refl (set_gpr d.rd v c))
              (dest-KeepsZero d v h c))
          core))

-- The atomic instructions translate an address, and go on with what `next` does there.
at_address-KeepsZero :
    (vaddr len : ℕ) (next : ℕ → M (Unit {0}))
    → ((paddr : ℕ) → KeepsZero (next paddr))
    → KeepsZero (amo_address vaddr len >>= next)
at_address-KeepsZero vaddr len next k core =
    settle next (amo_address vaddr len core).0 core (amo_address vaddr len core).1 k
      (IsSame-IsAlike (amo_address-Keeps vaddr len core))

load_reserved_at-KeepsZero :
    (len : ℕ) (d : DecodeInfo) (paddr : ℕ) → 0 < d.rd → KeepsZero (load_reserved_at len d paddr)
unfolding load_reserved_at bus_read reserve
load_reserved_at-KeepsZero len d paddr h core = ground arith

store_conditional_at-KeepsZero :
    (len : ℕ) (d : DecodeInfo) (paddr : ℕ) → 0 < d.rd → KeepsZero (store_conditional_at len d paddr)
unfolding store_conditional_at compare_exchange
store_conditional_at-KeepsZero len d paddr h core = ground arith

amo_at-KeepsZero :
    (amo : Amo) (len : ℕ) (d : DecodeInfo) (paddr : ℕ)
    → 0 < d.rd
    → KeepsZero (amo_at amo len d paddr)
unfolding amo_at
amo_at-KeepsZero amo len d paddr h core = ground arith

do_load_reserved-KeepsZero :
    (len : ℕ) (d : DecodeInfo) → 0 < d.rd → KeepsZero (do_load_reserved len d)
unfolding do_load_reserved
do_load_reserved-KeepsZero len d h core =
    at_address-KeepsZero (src1 d core) len (load_reserved_at len d)
      (λ a. load_reserved_at-KeepsZero len d a h) core

do_store_conditional-KeepsZero :
    (len : ℕ) (d : DecodeInfo) → 0 < d.rd → KeepsZero (do_store_conditional len d)
unfolding do_store_conditional
do_store_conditional-KeepsZero len d h core =
    at_address-KeepsZero (src1 d core) len (store_conditional_at len d)
      (λ a. store_conditional_at-KeepsZero len d a h) core

do_amo_inst-KeepsZero :
    (amo : Amo) (len : ℕ) (d : DecodeInfo) → 0 < d.rd → KeepsZero (do_amo_inst amo len d)
unfolding do_amo_inst
do_amo_inst-KeepsZero amo len d h core =
    at_address-KeepsZero (src1 d core) len (amo_at amo len d) (λ a. amo_at-KeepsZero amo len d a h)
      core

-- No instruction changes x0 or the running state.
pub exec-KeepsZero : (i : Inst) (d : DecodeInfo) → 0 < d.rd → KeepsZero (exec i d)
unfolding exec Alu.do_add Alu.do_sub Alu.do_and Alu.do_or Alu.do_xor Alu.do_sll Alu.do_srl
    Alu.do_sra Alu.do_slt Alu.do_sltu Alu.do_addw Alu.do_subw Alu.do_sllw Alu.do_srlw Alu.do_sraw
    Alu.do_addi Alu.do_andi Alu.do_ori Alu.do_xori Alu.do_slli Alu.do_srli Alu.do_srai Alu.do_slti
    Alu.do_sltiu Alu.do_addiw Alu.do_slliw Alu.do_srliw Alu.do_sraiw Alu.do_lui Alu.do_auipc
    Base.do_lb Base.do_lbu Base.do_lh Base.do_lhu Base.do_lw Base.do_lwu Base.do_ld Base.do_sb
    Base.do_sh Base.do_sw Base.do_sd Base.do_beq Base.do_bne Base.do_bge Base.do_bgeu Base.do_blt
    Base.do_bltu Base.do_jal Base.do_jalr Mul.do_mul Mul.do_mulh Mul.do_mulhsu Mul.do_mulhu
    Mul.do_div Mul.do_divu Mul.do_rem Mul.do_remu Mul.do_mulw Mul.do_divw Mul.do_divuw Mul.do_remw
    Mul.do_remuw Compressed.do_c_lwsp Compressed.do_c_swsp Compressed.do_c_lw Compressed.do_c_sw
    Compressed.do_c_j Compressed.do_c_jal Compressed.do_c_jr Compressed.do_c_jalr
    Compressed.do_c_beqz Compressed.do_c_bnez Compressed.do_c_li Compressed.do_c_lui
    Compressed.do_c_addi Compressed.do_c_addi16sp Compressed.do_c_addi4spn Compressed.do_c_slli
    Compressed.do_c_srli Compressed.do_c_srai Compressed.do_c_andi Compressed.do_c_mv
    Compressed.do_c_add Compressed.do_c_sub Compressed.do_c_xor Compressed.do_c_or
    Compressed.do_c_and Compressed.do_c_nop Compressed.do_c_ldsp Compressed.do_c_sdsp
    Compressed.do_c_ld Compressed.do_c_sd Compressed.do_c_addiw Compressed.do_c_addw
    Compressed.do_c_subw Zicsr.do_csrrw Zicsr.do_csrrs Zicsr.do_csrrc Zicsr.do_csrrwi
    Zicsr.do_csrrsi Zicsr.do_csrrci Trap.do_ecall Trap.do_ebreak Trap.mret Trap.sret set_priv_mode
    vm_translate tlb_fence do_invalid_inst Fence.do_sfence_vma Fence.do_fence Fence.do_fence_i
    Atomic.do_lr_w Atomic.do_sc_w Atomic.do_amoswap_w Atomic.do_amoadd_w Atomic.do_amoxor_w
    Atomic.do_amoand_w Atomic.do_amoor_w Atomic.do_amomin_w Atomic.do_amomax_w Atomic.do_amominu_w
    Atomic.do_amomaxu_w Atomic.do_lr_d Atomic.do_sc_d Atomic.do_amoswap_d Atomic.do_amoadd_d
    Atomic.do_amoxor_d Atomic.do_amoand_d Atomic.do_amoor_d Atomic.do_amomin_d Atomic.do_amomax_d
    Atomic.do_amominu_d Atomic.do_amomaxu_d
exec-KeepsZero Inst.i_lb d h core = load-KeepsZero (Base.address d core) 1 (λ v. sext 8 v) d h core
exec-KeepsZero Inst.i_lbu d h core = load-KeepsZero (Base.address d core) 1 (λ v. v) d h core
exec-KeepsZero Inst.i_lh d h core = load-KeepsZero (Base.address d core) 2 (λ v. sext 16 v) d h core
exec-KeepsZero Inst.i_lhu d h core = load-KeepsZero (Base.address d core) 2 (λ v. v) d h core
exec-KeepsZero Inst.i_lw d h core = load-KeepsZero (Base.address d core) 4 (λ v. sext 32 v) d h core
exec-KeepsZero Inst.i_lwu d h core = load-KeepsZero (Base.address d core) 4 (λ v. v) d h core
exec-KeepsZero Inst.i_ld d h core = load-KeepsZero (Base.address d core) 8 (λ v. v) d h core
exec-KeepsZero Inst.i_c_lw d h core =
    load-KeepsZero (add64 (src1 d core) d.imm) 4 (λ v. sext 32 v) d h core
exec-KeepsZero Inst.i_c_ld d h core = load-KeepsZero (add64 (src1 d core) d.imm) 8 (λ v. v) d h core
exec-KeepsZero Inst.i_c_lwsp d h core =
    branch (not (d.rd == 32))
      ((memory_load (add64 (core.gpr 2) d.imm) 4 >>= λ v. set_dest d (sext 32 v)) core)
      (do_invalid_inst core) core
      (load-KeepsZero (add64 (core.gpr 2) d.imm) 4 (λ v. sext 32 v) d h core) (IsAlike-refl core)
exec-KeepsZero Inst.i_c_ldsp d h core =
    branch (not (d.rd == 32))
      ((memory_load (add64 (core.gpr 2) d.imm) 8 >>= λ v. set_dest d (v)) core)
      (do_invalid_inst core) core (load-KeepsZero (add64 (core.gpr 2) d.imm) 8 (λ v. v) d h core)
      (IsAlike-refl core)
exec-KeepsZero Inst.i_sb d h core = store-KeepsZero (Base.address d core) (src2 d core) 1 core
exec-KeepsZero Inst.i_sh d h core = store-KeepsZero (Base.address d core) (src2 d core) 2 core
exec-KeepsZero Inst.i_sw d h core = store-KeepsZero (Base.address d core) (src2 d core) 4 core
exec-KeepsZero Inst.i_sd d h core = store-KeepsZero (Base.address d core) (src2 d core) 8 core
exec-KeepsZero Inst.i_c_sw d h core =
    store-KeepsZero (add64 (src1 d core) d.imm) (src2 d core) 4 core
exec-KeepsZero Inst.i_c_sd d h core =
    store-KeepsZero (add64 (src1 d core) d.imm) (src2 d core) 8 core
exec-KeepsZero Inst.i_c_swsp d h core =
    store-KeepsZero (add64 (core.gpr 2) d.imm) (src2 d core) 4 core
exec-KeepsZero Inst.i_c_sdsp d h core =
    store-KeepsZero (add64 (core.gpr 2) d.imm) (src2 d core) 8 core
exec-KeepsZero Inst.i_csrrs d h core =
    read_checked-KeepsZero d.csr
      (λ v c.
        if d.rs1 == 0
        then set_dest d v c
        else write_checked d.csr (bit_or v (src1 d c)) (set_dest d v) c)
      (λ v c. set_or_write (d.rs1 == 0) d.csr (bit_or v (src1 d c)) v d c h) core
exec-KeepsZero Inst.i_csrrc d h core =
    read_checked-KeepsZero d.csr
      (λ v c.
        if d.rs1 == 0
        then set_dest d v c
        else write_checked d.csr (bit_and v (not64 (src1 d c))) (set_dest d v) c)
      (λ v c. set_or_write (d.rs1 == 0) d.csr (bit_and v (not64 (src1 d c))) v d c h) core
exec-KeepsZero Inst.i_csrrsi d h core =
    read_checked-KeepsZero d.csr
      (λ v c.
        if d.imm == 0
        then set_dest d v c
        else write_checked d.csr (bit_or v d.imm) (set_dest d v) c)
      (λ v c. set_or_write (d.imm == 0) d.csr (bit_or v d.imm) v d c h) core
exec-KeepsZero Inst.i_csrrci d h core =
    read_checked-KeepsZero d.csr
      (λ v c.
        if d.imm == 0
        then set_dest d v c
        else write_checked d.csr (bit_and v (not64 d.imm)) (set_dest d v) c)
      (λ v c. set_or_write (d.imm == 0) d.csr (bit_and v (not64 d.imm)) v d c h) core
exec-KeepsZero Inst.i_csrrw d h core = csrrw-KeepsZero d h core
exec-KeepsZero Inst.i_csrrwi d h core = csrrwi-KeepsZero d h core
exec-KeepsZero Inst.i_lr_w d h core = do_load_reserved-KeepsZero 4 d h core
exec-KeepsZero Inst.i_sc_w d h core = do_store_conditional-KeepsZero 4 d h core
exec-KeepsZero Inst.i_amoswap_w d h core = do_amo_inst-KeepsZero Amo.swap 4 d h core
exec-KeepsZero Inst.i_amoadd_w d h core = do_amo_inst-KeepsZero Amo.add 4 d h core
exec-KeepsZero Inst.i_amoxor_w d h core = do_amo_inst-KeepsZero Amo.xor 4 d h core
exec-KeepsZero Inst.i_amoand_w d h core = do_amo_inst-KeepsZero Amo.and 4 d h core
exec-KeepsZero Inst.i_amoor_w d h core = do_amo_inst-KeepsZero Amo.or 4 d h core
exec-KeepsZero Inst.i_amomin_w d h core = do_amo_inst-KeepsZero Amo.min_s 4 d h core
exec-KeepsZero Inst.i_amomax_w d h core = do_amo_inst-KeepsZero Amo.max_s 4 d h core
exec-KeepsZero Inst.i_amominu_w d h core = do_amo_inst-KeepsZero Amo.min_u 4 d h core
exec-KeepsZero Inst.i_amomaxu_w d h core = do_amo_inst-KeepsZero Amo.max_u 4 d h core
exec-KeepsZero Inst.i_lr_d d h core = do_load_reserved-KeepsZero 8 d h core
exec-KeepsZero Inst.i_sc_d d h core = do_store_conditional-KeepsZero 8 d h core
exec-KeepsZero Inst.i_amoswap_d d h core = do_amo_inst-KeepsZero Amo.swap 8 d h core
exec-KeepsZero Inst.i_amoadd_d d h core = do_amo_inst-KeepsZero Amo.add 8 d h core
exec-KeepsZero Inst.i_amoxor_d d h core = do_amo_inst-KeepsZero Amo.xor 8 d h core
exec-KeepsZero Inst.i_amoand_d d h core = do_amo_inst-KeepsZero Amo.and 8 d h core
exec-KeepsZero Inst.i_amoor_d d h core = do_amo_inst-KeepsZero Amo.or 8 d h core
exec-KeepsZero Inst.i_amomin_d d h core = do_amo_inst-KeepsZero Amo.min_s 8 d h core
exec-KeepsZero Inst.i_amomax_d d h core = do_amo_inst-KeepsZero Amo.max_s 8 d h core
exec-KeepsZero Inst.i_amominu_d d h core = do_amo_inst-KeepsZero Amo.min_u 8 d h core
exec-KeepsZero Inst.i_amomaxu_d d h core = do_amo_inst-KeepsZero Amo.max_u 8 d h core
exec-KeepsZero _ d h core = ground arith

-- No instruction changes x0: whatever it does, traps included, an instruction whose destination the
-- decoder has set leaves `gpr[0]` as it was.
pub exec-x0 :
    (i : Inst) (d : DecodeInfo) (core : RvCore) → 0 < d.rd → (exec i d core).1.gpr 0 ≡ core.gpr 0
exec-x0 i d core h = (exec-KeepsZero i d h core).zero
