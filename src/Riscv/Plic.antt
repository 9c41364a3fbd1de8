-- ===== src/Riscv/Plic.antt =====
-- class PLIC of src/cpu/riscv/plic.cpp and include/cpu/riscv/plic.hpp: the interrupt controller with
-- 32 sources and 32 target contexts, two to a core. The arrays are functions of the index; `none` is
-- an access past them, or a call on a context that has no core, which C++ leaves undefined. What the
-- controller asks of a core is a `Signal`.
pub mod Loop
pub mod Claim
pub mod Serve
pub mod Enable
mod Tests
use kxemu.Base.Shared.{
  ℕ, zero, suc, ◌+◌, ◌-◌, ◌*◌, ◌/◌, ◌%◌, ◌^◌, bit_and, bit_or, Bool, true, false, not, ◌&&◌, ◌==◌,
  ltb, leb, if◌then◌else◌, List, [], ◌∷◌, Option, none, some,
}
use kxemu.Base.Word.{u32}
use kxemu.Device.Mmio
use kxemu.Device.Mmio.{Device}
use kxemu.Device.Bus.{Bus, MmioMapBlock}
use kxemu.Riscv.Def
use kxemu.Riscv.Def.{machine}
use kxemu.Riscv.Signal.{Signal, quiet, raise, lower}

pub record InterruptSource : Type 0 where
  pub priority : ℕ
  pub pending : Bool
  pub enable : ℕ → Bool

-- `core` is the number of the core that the pointer is to.
pub record TargetContext : Type 0 where
  pub threshold : ℕ
  pub claim : ℕ
  pub core : Option ℕ

pub record Plic : Type 0 where
  pub interrupt_sources : ℕ → InterruptSource
  pub target_contexts : ℕ → TargetContext

-- Two contexts to a core: the even one is for M-mode.
unfoldable pub external_code : ℕ → ℕ
external_code context = if context % 2 == 0 then Def.external_m else Def.external_s

-- init, for at most 16 cores
unfoldable pub init : ℕ → Plic
init core_count = record {
  interrupt_sources = λ i. record { priority = 0; pending = false; enable = λ j. false };
  target_contexts = λ i. record {
    threshold = 0;
    claim = 0;
    core = if ltb (i / 2) core_count then some (i / 2) else none;
  };
}

unfoldable pub set_source : ℕ → InterruptSource → Plic → Plic
set_source i s plic = record plic {
  interrupt_sources = λ j. if j == i then s else plic.interrupt_sources j;
}

unfoldable pub set_target : ℕ → TargetContext → Plic → Plic
set_target i t plic = record plic {
  target_contexts = λ j. if j == i then t else plic.target_contexts j;
}

abbrev plic_pending : ℕ
plic_pending = 0x1000

abbrev pub plic_enable : ℕ
plic_enable = 0x2000

abbrev pub plic_context : ℕ
plic_context = 0x200000

-- AddrSpace::in_range
unfoldable pub in_space : ℕ → ℕ → ℕ → Bool
in_space base size addr = leb base addr && ltb addr (base + size)

-- `for (i) if (test(i)) word |= 1 << i;`, from the bits below `n` of a 32-bit word.
unfoldable pub gather : ℕ → (ℕ → Bool) → ℕ
gather zero test = 0
gather (suc n) test = if test n then bit_or (gather n test) (2 ^ n) else gather n test

-- `1 << i` as the operand of a 64-bit `&`: the `int` of i = 31 is negative.
unfoldable pub shifted_one : ℕ → ℕ
shifted_one i = if i == 31 then 2 ^ 64 - 2 ^ 31 else 2 ^ i

read_context : ℕ → Plic → ℕ
read_context offset plic =
    let context = (offset - plic_context) / 0x1000 in
    let at = (offset - plic_context) % 0x1000 in
    if leb 32 context
    then 0
    else if at == 0
    then (plic.target_contexts context).threshold
    else if at == 4
    then (plic.target_contexts context).claim
    else 0

-- The inner `none` is `valid = false`.
unfoldable pub read : ℕ → ℕ → Plic → Option (Option ℕ)
unfolding read_context
read offset size plic =
    let source = offset / 4 in
    let t = (offset - plic_pending) / 4 in
    let context = (offset - plic_enable) / 0x80 in
    if not (size == 4)
    then some none
    else if in_space 0 0x1000 offset
    then some (some (if ltb source 32 then (plic.interrupt_sources source).priority else 0))
    else if in_space plic_pending 0x80 offset
    then if t == 0
      then some (some (gather 32 (λ i. (plic.interrupt_sources i).pending)))
      else if ltb t 4
      then none
      else some (some 0)
    else if in_space plic_enable 0x1f0000 offset
    then if not ((offset - plic_enable) % 0x80 == 0)
      then some (some 0)
      else if ltb context 32
      then some (some (gather 32 (λ i. (plic.interrupt_sources i).enable context)))
      else none
    else if in_space plic_context 0x100000 offset
    then some (some (read_context offset plic))
    else some none

-- The loop over the 32 sources.
unfoldable pub set_enables : ℕ → ℕ → Plic → Plic
set_enables context value plic = record plic {
  interrupt_sources = λ i. record (plic.interrupt_sources i) {
    enable = λ j.
        if j == context && ltb i 32
        then not (bit_and value (shifted_one i) == 0)
        else (plic.interrupt_sources i).enable j;
  };
}

-- A write of the claimed number completes the claim.
unfoldable pub complete : ℕ → ℕ → Plic → Option (Bool × Plic × Signal)
complete context value plic =
    let target = plic.target_contexts context in
    if target.claim == value
    then elim target.core [
      | none ↦ none
      | some core ↦ some (
        true,
        set_target context (record target { claim = 0 }) plic,
        lower core (external_code context),
      )
    ]
    else some (true, plic, quiet)

write_context : ℕ → ℕ → Plic → Option (Bool × Plic × Signal)
write_context offset value plic =
    let context = (offset - plic_context) / 0x1000 in
    let at = (offset - plic_context) % 0x1000 in
    if leb 32 context
    then some (false, plic, quiet)
    else if at == 0
    then some (
      true,
      set_target context (record (plic.target_contexts context) { threshold = u32 value }) plic,
      quiet,
    )
    else if at == 4
    then complete context value plic
    else some (false, plic, quiet)

unfoldable pub write : ℕ → ℕ → ℕ → Plic → Option (Bool × Plic × Signal)
unfolding write_context
write offset value size plic =
    let source = offset / 4 in
    let context = (offset - plic_enable) / 0x80 in
    if not (size == 4)
    then some (false, plic, quiet)
    else if in_space 0 0x1000 offset
    then some (
      true,
      (if ltb source 32
          then set_source source (record (plic.interrupt_sources source) { priority = u32 value })
              plic
          else plic),
      quiet,
    )
    else if in_space plic_enable 0x1f0000 offset
    then if not ((offset - plic_enable) % 0x80 == 0)
      then some (true, plic, quiet)
      else if ltb context 32
      then some (true, set_enables context value plic, quiet)
      else none
    else if in_space plic_context 0x100000 offset
    then write_context offset value plic
    else some (false, plic, quiet)

-- The variables of the loop in scan_and_set_interrupt; `source_dev` is a place in the list.
pub record Scan : Type 0 where
  pub priority : ℕ
  pub claim : ℕ
  pub source_dev : Option ℕ
  pub plic : Plic

-- The body, for a device that has an interrupt pending.
unfoldable pub consider : ℕ → ℕ → ℕ → Scan → Scan
consider context place id s =
    let source = s.plic.interrupt_sources id in
    let marked = record s {
      source_dev = some place;
      plic = set_source id (record source { pending = true }) (s.plic);
    } in
    if source.enable context && leb s.priority source.priority
    then record marked { priority = source.priority; claim = id }
    else marked

unfoldable pub scan_maps : ℕ → ℕ → List MmioMapBlock → Scan → Option Scan
scan_maps context place [] s = some s
scan_maps context place (m ∷ ms) s =
    let skipped = scan_maps context (suc place) ms s in
    let taken = scan_maps context (suc place) ms (consider context place m.id s) in
    if Mmio.interrupt_pending m.dev then if ltb m.id 32 then taken else none else skipped

unfoldable pub clear_at : ℕ → List MmioMapBlock → List MmioMapBlock
clear_at place [] = []
clear_at zero (m ∷ ms) = record m { dev = Mmio.clear_interrupt m.dev } ∷ ms
clear_at (suc place) (m ∷ ms) = m ∷ clear_at place ms

unfoldable pub context_of : ℕ → ℕ → ℕ
context_of hart_id priv_mode = if priv_mode == machine then hart_id * 2 else hart_id * 2 + 1

-- What follows the loop.
unfoldable pub claim_scanned : ℕ → Scan → Bus → Option (Plic × Bus × Signal)
claim_scanned context s bus =
    let target = s.plic.target_contexts context in
    if s.claim == 0 then some (s.plic, bus, quiet) else elim s.source_dev [
      | none ↦ none
      | some place ↦ elim target.core [
        | none ↦ none
        | some core ↦ some (
          set_target context (record target { claim = s.claim }) (s.plic),
          record bus { mmio_maps = clear_at place bus.mmio_maps },
          raise core (external_code context),
        )
      ]
    ]

unfoldable pub scan_and_set_interrupt : ℕ → ℕ → Plic → Bus → Option (Plic × Bus × Signal)
scan_and_set_interrupt hart_id priv_mode plic bus =
    let context = context_of hart_id priv_mode in
    let target = plic.target_contexts context in
    let start : Scan = record {
      priority = target.threshold;
      claim = 0;
      source_dev = none;
      plic = plic;
    } in
    if leb 32 context
    then none
    else if not (target.claim == 0)
    then some (plic, bus, quiet)
    else elim (scan_maps context 0 bus.mmio_maps start) [
      | none ↦ none
      | some s ↦ claim_scanned context s bus
    ]
