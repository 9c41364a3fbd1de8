-- ===== src/Riscv/Inst/Atomic/Update.antt =====
-- The read-modify-write instructions of atomic.cpp, in M-mode on mapped memory.
use Prim.{tt}
use kxemu.Base.Shared.{
  ℕ, ◌-◌, ◌*◌, ◌%◌, ◌^◌, ◌<◌, ◌≡◌, ◌⊎◌, inl, inr, refl, ap, arith, bit_and, bit_or, bit_xor, ◌∙◌,
  ◌+◌, ltb, leb, Bool, false, if◌then◌else◌, true, ◌==◌, some,
}
use kxemu.Base.Signed.{sext, to_signed, of_signed}
use kxemu.Device.Bus
use kxemu.Device.Bus.{Bus, match_memory, replace_memory}
use kxemu.Device.Bus.Block.{
  MemoryBlock, done, Amo, is_width, amo_result, amo_return, bytes_mod, signed_ltb,
}
use kxemu.Device.Bus.Atomic.{do_atomic-read, read-lt}
use kxemu.Riscv.Def.{machine}
use kxemu.Riscv.Core.{RvCore, ok, bind-ok, priv_mode}
use kxemu.Riscv.Decode.{DecodeInfo}
use kxemu.Riscv.Inst.{src1, src2}
use kxemu.Riscv.Inst.Atomic.{amo_address, amo_at, do_amo_inst}

-- The two widths of atomic.cpp.
abbrev pub IsAtomicWidth : ℕ → Type 0
IsAtomicWidth len = (len ≡ 4) ⊎ (len ≡ 8)

low_digits : (amo : Amo) (old : ℕ) → old < 256 ^ 4 → amo_return amo 4 old % 2 ^ 32 ≡ old
unfolding amo_return
low_digits Amo.min_s old h = ground arith
low_digits _ old h = ground arith

all_digits : (amo : Amo) (old : ℕ) → old < 256 ^ 8 → amo_return amo 8 old % 2 ^ 64 ≡ old
unfolding amo_return
all_digits Amo.min_s old h = ground arith
all_digits _ old h = ground arith

-- Cutting off the digits that the widening of the signed cases adds.
amo_return-low :
    (amo : Amo) (len old : ℕ)
    → IsAtomicWidth len
    → old < 256 ^ len
    → amo_return amo len old % 2 ^ (8 * len) ≡ old
amo_return-low amo len old (inl e) h =
    let below : old < 256 ^ 4 = omega (arith, ap (λ (t : ℕ). 256 ^ t) e) in
    rw e (low_digits amo old below)
amo_return-low amo len old (inr e) h =
    let below : old < 256 ^ 8 = omega (arith, ap (λ (t : ℕ). 256 ^ t) e) in
    rw e (all_digits amo old below)

sext-amo_return :
    (amo : Amo) (len old : ℕ)
    → IsAtomicWidth len
    → old < 256 ^ len
    → sext (8 * len) (amo_return amo len old) ≡ of_signed 64 (to_signed (8 * len) old)
unfolding sext
sext-amo_return amo len old w h =
    ap (λ t. of_signed 64 (to_signed (8 * len) t)) (amo_return-low amo len old w h)

pub amo_address-machine :
    (vaddr len : ℕ) (core : RvCore)
    → priv_mode core ≡ machine
    → bit_and vaddr (len - 1) ≡ 0
    → amo_address vaddr len core ≡ (ok vaddr, core)
unfolding amo_address
amo_address-machine vaddr len core p a = rw (a, p) refl

pub IsAtomicWidth-is_width : (len : ℕ) → IsAtomicWidth len → is_width len ≡ true
unfolding is_width
IsAtomicWidth-is_width len h = ground arith

-- What each operation makes of the old value and the operand on `len` bytes, by the manual: min and max
-- compare as signed numbers, minu and maxu as unsigned ones.
abbrev pub is_negative : ℕ → ℕ → Bool
is_negative len a = leb (2 ^ (8 * len - 1)) a

abbrev pub signed_less : ℕ → ℕ → ℕ → Bool
signed_less len a b =
    if is_negative len a
    then (if is_negative len b then ltb a b else true)
    else (if is_negative len b then false else ltb a b)

abbrev pub combined : Amo → ℕ → ℕ → ℕ → ℕ
combined Amo.swap len old operand = operand
combined Amo.add len old operand = (old + operand) % 2 ^ (8 * len)
combined Amo.and len old operand = bit_and old operand
combined Amo.or len old operand = bit_or old operand
combined Amo.xor len old operand = bit_xor old operand
combined Amo.min_s len old operand = if signed_less len operand old then operand else old
combined Amo.max_s len old operand = if signed_less len old operand then operand else old
combined Amo.min_u len old operand = if ltb operand old then operand else old
combined Amo.max_u len old operand = if ltb old operand then operand else old

amo_result-combined_w :
    (amo : Amo) (old operand : ℕ)
    → old < 256 ^ 4
    → operand < 256 ^ 4
    → amo_result amo 4 old operand ≡ combined amo 4 old operand
unfolding amo_result signed_ltb
amo_result-combined_w Amo.swap old operand h k = refl
amo_result-combined_w Amo.add old operand h k = refl
amo_result-combined_w Amo.and old operand h k = refl
amo_result-combined_w Amo.or old operand h k = refl
amo_result-combined_w Amo.xor old operand h k = refl
amo_result-combined_w _ old operand h k = ground arith

amo_result-combined_d :
    (amo : Amo) (old operand : ℕ)
    → old < 256 ^ 8
    → operand < 256 ^ 8
    → amo_result amo 8 old operand ≡ combined amo 8 old operand
unfolding amo_result signed_ltb
amo_result-combined_d Amo.swap old operand h k = refl
amo_result-combined_d Amo.add old operand h k = refl
amo_result-combined_d Amo.and old operand h k = refl
amo_result-combined_d Amo.or old operand h k = refl
amo_result-combined_d Amo.xor old operand h k = refl
amo_result-combined_d _ old operand h k = ground arith

amo_result-combined :
    (amo : Amo) (len old v : ℕ)
    → IsAtomicWidth len
    → old < 256 ^ len
    → amo_result amo len old (v % bytes_mod len) ≡ combined amo len old (v % 2 ^ (8 * len))
amo_result-combined amo len old v (inl e) h =
    let below : old < 256 ^ 4 = omega (arith, ap (λ (t : ℕ). 256 ^ t) e) in
    rw e (amo_result-combined_w amo old (v % 2 ^ 32) below (omega arith))
amo_result-combined amo len old v (inr e) h =
    let below : old < 256 ^ 8 = omega (arith, ap (λ (t : ℕ). 256 ^ t) e) in
    rw e (amo_result-combined_d amo old (v % 2 ^ 64) below (omega arith))

-- An atomic instruction `amo` on `len` bytes of memory at the aligned address in rs1, in M-mode, leaves the
-- sign-extended old value in its destination, and the next read of the address gives what `amo` makes of the
-- old value and the low bytes of rs2: their sum modulo 2^(8 len), their digits' and, or or xor, the smaller
-- or the larger of the two as signed or as unsigned numbers, or rs2 itself.
pub amo_updates :
    (amo : Amo) (len : ℕ) (d : DecodeInfo) (core : RvCore) (m : MemoryBlock) (old : ℕ)
    → IsAtomicWidth len
    → priv_mode core ≡ machine
    → bit_and (src1 d core) (len - 1) ≡ 0
    → match_memory core.bus.memory_maps (src1 d core) len ≡ some m
    → (Bus.read (src1 d core) len core.bus).0 ≡ done old
    → let (result, core') = do_amo_inst amo len d core in
      (result ≡ ok tt)
      × (core'.gpr d.rd ≡ of_signed 64 (to_signed (8 * len) old))
      × ((Bus.read (src1 d core) len core'.bus).0
          ≡ done (combined amo len old (src2 d core % 2 ^ (8 * len)) % 256 ^ len))
unfolding do_amo_inst amo_at of_signed
amo_updates amo len d core m old w p a found e =
    let addr = src1 d core in
    let width : is_width len ≡ true = IsAtomicWidth-is_width len w in
    let (answer, later) = do_atomic-read core.bus addr (src2 d core) len old amo m found width e in
    let narrow = sext-amo_return amo len old w (read-lt core.bus addr len old m found width e) in
    let same : (d.rd == d.rd) ≡ true = ground arith in
    let step : do_amo_inst amo len d core ≡ amo_at amo len d addr core =
      bind-ok (amo_address addr len) (amo_at amo len d) addr core core
        (amo_address-machine addr len core p a) in
    let made =
      amo_result-combined amo len old (src2 d core) w
        (read-lt core.bus addr len old m found width e) in
    rw step
      (rw (answer, amo_at) (refl, rw same narrow, later ∙ ap (λ t. done (t % 256 ^ len)) made))
