-- ===== src/Riscv/Inst/Atomic/Tests.antt =====
-- Atomic instructions on a page of memory, and each theorem on them at one.
use Prim.{tt}
use kxemu.Base.Shared.{◌+◌, ◌*◌, ◌%◌, ◌^◌, ◌≡◌, refl, ◌==◌, if◌then◌else◌, [], ◌∷◌, some, none, inl}
use kxemu.Base.Signed.{sext, to_signed, of_signed}
use kxemu.Device.Bus
use kxemu.Device.Bus.{match_memory}
use kxemu.Device.Bus.Block
use kxemu.Device.Bus.Block.{MemoryBlock, done, Amo}
use kxemu.Riscv.Core.{RvCore, ok}
use kxemu.Riscv.Core.Sample.{core_with}
use kxemu.Riscv.Decode.{DecodeInfo}
use kxemu.Riscv.Inst.{src1, src2}
use kxemu.Riscv.Memory.{bus_read}
use kxemu.Riscv.Inst.Atomic.{
  amo_address, load_reserved_at, reserve, do_amo_inst, do_load_reserved, do_store_conditional,
}
use kxemu.Riscv.Inst.Atomic.Update.{combined, amo_updates}
use kxemu.Riscv.Inst.Atomic.Reserved.{store_conditional-load_reserved}

abbrev page : MemoryBlock
page = record { start = 0x8000_0000; end = 0x8000_1000; contents = λ i. 0xf0 + i % 16 }

-- Register 11 holds the address 0x80000008.
abbrev core : RvCore
core = record (core_with 3 (λ a. 0)) {
  gpr = λ i. if i == 11 then 0x8000_0008 else i * 3;
  bus = record { memory_maps = page ∷ []; mmio_maps = [] };
}

abbrev info : DecodeInfo
info = record { rd = 5; rs1 = 11; rs2 = 2; flag = 0; csr = 0; imm = 0; npc = 0; rs3 = 0 }

page_found : match_memory core.bus.memory_maps 0x8000_0008 4 ≡ some page
unfolding match_memory Block.in_range
page_found = refl

page_pointer : Bus.get_ptr 0x8000_0008 core.bus ≡ some page
unfolding match_memory Block.in_range Bus.get_ptr
page_pointer = refl

word_read : (Bus.read 0x8000_0008 4 core.bus).0 ≡ done 0xfbfa_f9f8
unfolding match_memory Block.in_range Bus.read Block.read Block.is_width Block.is_inside
    Block.read_le
word_read = refl

address_kept : src1 info (do_load_reserved 4 info core).1 ≡ src1 info core
unfolding do_load_reserved amo_address load_reserved_at bus_read Bus.read match_memory
    Block.in_range Block.read Block.is_width Block.is_inside reserve
address_kept = refl

amo_updates_example :
    let (result, core') = do_amo_inst Amo.add 4 info core in
    (result ≡ ok tt)
    × (core'.gpr 5 ≡ of_signed 64 (to_signed 32 0xfbfa_f9f8))
    × ((Bus.read 0x8000_0008 4 core'.bus).0
        ≡ done (combined Amo.add 4 0xfbfa_f9f8 (6 % 2 ^ (8 * 4)) % 256 ^ 4))
amo_updates_example =
    amo_updates Amo.add 4 info core page 0xfbfa_f9f8 (inl refl) refl refl page_found word_read

store_conditional-load_reserved_example :
    let (loaded, core1) = do_load_reserved 4 info core in
    let (stored, core2) = do_store_conditional 4 info core1 in
    (loaded ≡ ok tt)
    × (core1.gpr 5 ≡ sext 32 0xfbfa_f9f8)
    × (core1.bus ≡ core.bus)
    × (stored ≡ ok tt)
    × (core2.gpr 5 ≡ 0)
    × (core2.reserved_memory 0x8000_0008 ≡ none)
    × ((Bus.read 0x8000_0008 4 core2.bus).0 ≡ done (src2 info core1 % 256 ^ 4))
store_conditional-load_reserved_example =
    store_conditional-load_reserved 4 info info core page 0xfbfa_f9f8 (inl refl) refl refl
      page_found page_pointer word_read address_kept
