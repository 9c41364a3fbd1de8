-- ===== src/Device/Bus/Tests.antt =====
-- Runs of the model of bus.cpp, and the theorems at concrete maps.
use kxemu.Base.Shared.{ℕ, ◌%◌, ◌^◌, ◌≡◌, refl, arith, true, false, [], ◌∷◌, some, inl}
use kxemu.Base.Word.{sub64}
use kxemu.Device.Mmio.{apart}
use kxemu.Device.Bus.Block
use kxemu.Device.Bus.Block.{MemoryBlock, Access, done, invalid, panic, in_range, Amo, min_s, add}
use kxemu.Device.Bus.{
  Bus, MmioMapBlock, match_memory, match_mmio, read, read_mmio, mmio_in_range, replace_memory,
  write, do_atomic, add_mmio_map,
}
use kxemu.Device.Bus.Memory.{read-write, read-write-Apart}
use kxemu.Device.Bus.Maps.{IsRange, IsDisjoint, add_mmio_map-IsDisjoint}

abbrev zeros : ℕ → ℕ
zeros _ = 0

abbrev ram : MemoryBlock
ram = record { start = 0x8000_0000; end = 0x8000_1000; contents = zeros }

abbrev console : MmioMapBlock
console = record { start = 0x1000_0000; size = 8; id = 10; dev = apart false }

abbrev machine : Bus
machine = record { memory_maps = ram ∷ []; mmio_maps = console ∷ [] }

-- Little-endian: the second byte of 0x1234 is 0x12.
byte_order : (read 0x8000_0001 1 (write 0x8000_0000 0x1234 2 machine).1).0 ≡ done 0x12
unfolding read write match_memory in_range Block.read Block.write Block.is_width Block.is_inside
    Block.read_le Block.write_le replace_memory
byte_order = refl

unmapped : (read 0x9000_0000 4 machine).0 ≡ invalid
unfolding read match_memory match_mmio in_range read_mmio mmio_in_range
unmapped = refl

-- amomin.w of -1 and 1 keeps -1, which comes back with its sign.
amo_min :
    (do_atomic 0x8000_0000 1 4 min_s (write 0x8000_0000 0xffff_ffff 4 machine).1).0
    ≡ done 0xffff_ffff_ffff_ffff
unfolding do_atomic write match_memory in_range Block.do_atomic Block.write Block.is_width
    Block.is_inside Block.read_le Block.write_le Block.amo_return Block.amo_result Block.signed_ltb
    replace_memory
amo_min = refl

ram_found : match_memory machine.memory_maps 0x8000_0010 4 ≡ some ram
unfolding match_memory in_range
ram_found = refl

ram_found_above : match_memory machine.memory_maps 0x8000_0014 4 ≡ some ram
unfolding match_memory in_range
ram_found_above = refl

width_four : Block.is_width 4 ≡ true
unfolding Block.is_width
width_four = refl

read-write_example :
    ((write 0x8000_0010 0x1_2345_6789 4 machine).0 ≡ done true)
    × ((read 0x8000_0010 4 (write 0x8000_0010 0x1_2345_6789 4 machine).1).0
        ≡ done (0x1_2345_6789 % 256 ^ 4))
read-write_example =
    read-write machine 0x8000_0010 0x1_2345_6789 4 ram ram_found width_four (omega arith)
      (omega arith)

read-write-Apart_example :
    ((write 0x8000_0010 7 4 machine).0 ≡ done true)
    × ((read 0x8000_0014 4 machine).0
        ≡ done (Block.read_le ram.contents (sub64 0x8000_0014 ram.start) 4))
    × ((read 0x8000_0014 4 (write 0x8000_0010 7 4 machine).1).0 ≡ (read 0x8000_0014 4 machine).0)
read-write-Apart_example =
    read-write-Apart machine 0x8000_0010 7 4 0x8000_0014 4 ram ram ram_found ram_found_above
      width_four width_four (omega arith) (omega arith) (omega arith) (omega arith)
      (inl (omega arith))

console-IsRange : IsRange console
console-IsRange = record { nonempty = omega arith; no_wrap = omega arith }

console-IsDisjoint : IsDisjoint machine.mmio_maps
console-IsDisjoint = (console-IsRange, tt, tt)

add_mmio_map-IsDisjoint_example :
    IsDisjoint (add_mmio_map 1 0x0200_0000 0x10000 (apart false) machine).1.mmio_maps
add_mmio_map-IsDisjoint_example =
    add_mmio_map-IsDisjoint 1 0x0200_0000 0x10000 (apart false) machine console-IsDisjoint
      (omega arith) (omega arith)
