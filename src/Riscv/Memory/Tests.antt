-- ===== src/Riscv/Memory/Tests.antt =====
-- Accesses of a core, and each theorem on them at one.
use Prim.{tt}
use kxemu.Base.Shared.{◌≡◌, ◌≢◌, ◌%◌, ◌∙◌, refl, sym, some, arith, [], ◌∷◌}
use kxemu.Device.Bus
use kxemu.Device.Bus.{match_memory}
use kxemu.Device.Bus.Block
use kxemu.Device.Bus.Block.{MemoryBlock}
use kxemu.Riscv.Core.{RvCore, ok, undefined}
use kxemu.Riscv.Core.Sample.{core_with}
use kxemu.Riscv.Memory.{
  memory_load, memory_store, pm_read, pm_write, bus_read, bus_write, tlb_push, tlb_hit, write_back,
  fill_block,
}
use kxemu.Riscv.Memory.Frame.{IsSame, memory_keeps_registers}
use kxemu.Riscv.Memory.Tlb.{filled_block, tlb_push-tlb_hit}

abbrev user_core : RvCore
user_core = core_with 0 (λ a. 0)

abbrev page : MemoryBlock
page = record { start = 0x8000_0000; end = 0x8000_1000; contents = λ i. i % 16 }

abbrev machine_core : RvCore
machine_core = record (core_with 3 (λ a. 0)) {
  bus = record { memory_maps = page ∷ []; mmio_maps = [] };
}

loaded : (memory_load 0x8000_0008 4 machine_core).0 ≡ ok 0x0b0a_0908
unfolding memory_load pm_read bus_read Bus.read match_memory Block.in_range Block.read
    Block.is_width Block.is_inside Block.read_le
loaded = refl

stored : (memory_store 0x8000_0008 7 4 machine_core).0 ≡ ok tt
unfolding memory_store pm_write bus_write Bus.write match_memory Block.in_range Block.write
    Block.is_width Block.is_inside Block.write_le
stored = refl

load_is_defined : (memory_load 0x8000_0008 4 machine_core).0 ≢ undefined
load_is_defined = λ h. let e = sym loaded ∙ h in cc

store_is_defined : (memory_store 0x8000_0008 7 4 machine_core).0 ≢ undefined
store_is_defined = λ h. let e = sym stored ∙ h in cc

memory_keeps_registers_example :
    IsSame (memory_load 0x8000_0008 4 machine_core).1 machine_core
    × IsSame (memory_store 0x8000_0008 7 4 machine_core).1 machine_core
memory_keeps_registers_example =
    memory_keeps_registers 0x8000_0008 7 4 machine_core load_is_defined store_is_defined

push_lem : (tlb_push 0x4000_0000 0x8000_0000 0x8000_1000 0xcf user_core).0 ≡ ok tt
unfolding tlb_push write_back fill_block
push_lem = refl

tlb_push-tlb_hit_example :
    tlb_hit 0x4000_0abc (tlb_push 0x4000_0000 0x8000_0000 0x8000_1000 0xcf user_core).1
    ≡ some (filled_block 0x4000_0000 0x8000_0000 0x8000_1000 0xcf)
tlb_push-tlb_hit_example =
    tlb_push-tlb_hit 0x4000_0abc 0x4000_0000 0x8000_0000 0x8000_1000 0xcf user_core (omega arith)
      (omega arith) push_lem
