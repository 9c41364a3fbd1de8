-- ===== src/Riscv/Inst/Atomic.antt =====
-- src/cpu/riscv/inst/atomic.cpp. `len` is `sizeof(sunit_t)`: 4 for the `_w` instructions, 8 for `_d`.
pub mod Address
pub mod Reserved
pub mod Update
mod Tests
use Prim.{Unit, tt}
use kxemu.Base.Shared.{
  ℕ, ◌-◌, ◌*◌, ◌%◌, ◌^◌, bit_and, Bool, not, ◌==◌, if◌then◌else◌, Option, none, some,
}
use kxemu.Base.Word.{sub64}
use kxemu.Base.Signed.{sext}
use kxemu.Device.Bus
use kxemu.Device.Bus.{replace_memory}
use kxemu.Device.Bus.Block
use kxemu.Device.Bus.Block.{MemoryBlock, Access, done, invalid, outside, Amo}
use kxemu.Riscv.Def
use kxemu.Riscv.Def.{machine}
use kxemu.Riscv.Core.{RvCore, M, ok, panic, undefined, ◌>>=◌, throw, priv_mode, set_gpr}
use kxemu.Riscv.Decode.{DecodeInfo}
use kxemu.Riscv.Memory.{vaddr_translate_core, or_throw, bus_read, amo_type}
use kxemu.Riscv.Inst.{src1, src2, set_dest}

-- amo_vaddr_translate_and_set_trap; the PMP checks always pass.
unfoldable pub amo_address : ℕ → ℕ → M ℕ
amo_address vaddr len core =
    if not (bit_and vaddr (len - 1) == 0)
    then throw Def.amo_access_misaligned vaddr core
    else if priv_mode core == machine
    then (ok vaddr, core)
    else (vaddr_translate_core vaddr amo_type
          >>= or_throw Def.amo_access_fault Def.amo_page_fault vaddr)
        core

-- `DEST = value; reservedMemory[paddr] = value;`
unfoldable pub reserve : DecodeInfo → ℕ → ℕ → M (Unit {0})
reserve d paddr value core = (
  ok tt,
  record (set_gpr d.rd value core) {
    reserved_memory = λ a. if a == paddr then some value else core.reserved_memory a;
  },
)

unfoldable pub load_reserved_at : ℕ → DecodeInfo → ℕ → M (Unit {0})
load_reserved_at len d paddr = bus_read paddr len >>= λ r. elim r [
  | none ↦ throw Def.amo_access_fault paddr
  | some v ↦ reserve d paddr (sext (8 * len) v)
]

unfoldable pub do_load_reserved : ℕ → DecodeInfo → M (Unit {0})
do_load_reserved len d core = (amo_address (src1 d core) len >>= load_reserved_at len d) core

-- `__atomic_compare_exchange_n` on the pointer into `m`; past the end of the block it is undefined.
unfoldable pub compare_exchange : ℕ → DecodeInfo → ℕ → ℕ → MemoryBlock → M (Unit {0})
compare_exchange len d paddr expected m core =
    let offset = sub64 paddr m.start in
    let success = Block.read_le m.contents offset len == expected % 2 ^ (8 * len) in
    let stored = record m { contents = Block.write_le m.contents offset (src2 d core) len } in
    let maps = core.bus.memory_maps in
    let maps' = if success then replace_memory maps paddr 0 stored else maps in
    if Block.is_inside m paddr len
    then (
      ok tt,
      record (set_gpr d.rd (if success then 0 else 1) core) {
        reserved_memory = λ a. if a == paddr then none else core.reserved_memory a;
        bus = record (core.bus) { memory_maps = maps' };
      },
    )
    else (undefined, core)

unfoldable pub store_conditional_at : ℕ → DecodeInfo → ℕ → M (Unit {0})
store_conditional_at len d paddr core = elim (core.reserved_memory paddr) [
  | none ↦ set_dest d 0 core
  | some expected ↦ elim (Bus.get_ptr paddr core.bus) [
    | none ↦ throw Def.amo_access_fault paddr core
    | some m ↦ compare_exchange len d paddr expected m core
  ]
]

unfoldable pub do_store_conditional : ℕ → DecodeInfo → M (Unit {0})
do_store_conditional len d core =
    (amo_address (src1 d core) len >>= store_conditional_at len d) core

unfoldable pub amo_at : Amo → ℕ → DecodeInfo → ℕ → M (Unit {0})
amo_at amo len d paddr core =
    let (r, bus') = Bus.do_atomic paddr (src2 d core) len amo core.bus in
    elim r [
      | done old ↦ set_dest d (sext (8 * len) old) (record core { bus = bus' })
      | invalid ↦ throw Def.amo_access_fault paddr (record core { bus = bus' })
      | Access.panic ↦ (panic, record core { bus = bus' })
      | outside ↦ (undefined, record core { bus = bus' })
    ]

unfoldable pub do_amo_inst : Amo → ℕ → DecodeInfo → M (Unit {0})
do_amo_inst amo len d core = (amo_address (src1 d core) len >>= amo_at amo len d) core

unfoldable pub do_lr_w : DecodeInfo → M (Unit {0})
unfolding do_load_reserved
do_lr_w = do_load_reserved 4

unfoldable pub do_sc_w : DecodeInfo → M (Unit {0})
unfolding do_store_conditional
do_sc_w = do_store_conditional 4

unfoldable pub do_amoswap_w : DecodeInfo → M (Unit {0})
unfolding do_amo_inst
do_amoswap_w = do_amo_inst Amo.swap 4

unfoldable pub do_amoadd_w : DecodeInfo → M (Unit {0})
unfolding do_amo_inst
do_amoadd_w = do_amo_inst Amo.add 4

unfoldable pub do_amoxor_w : DecodeInfo → M (Unit {0})
unfolding do_amo_inst
do_amoxor_w = do_amo_inst Amo.xor 4

unfoldable pub do_amoand_w : DecodeInfo → M (Unit {0})
unfolding do_amo_inst
do_amoand_w = do_amo_inst Amo.and 4

unfoldable pub do_amoor_w : DecodeInfo → M (Unit {0})
unfolding do_amo_inst
do_amoor_w = do_amo_inst Amo.or 4

unfoldable pub do_amomin_w : DecodeInfo → M (Unit {0})
unfolding do_amo_inst
do_amomin_w = do_amo_inst Amo.min_s 4

unfoldable pub do_amomax_w : DecodeInfo → M (Unit {0})
unfolding do_amo_inst
do_amomax_w = do_amo_inst Amo.max_s 4

unfoldable pub do_amominu_w : DecodeInfo → M (Unit {0})
unfolding do_amo_inst
do_amominu_w = do_amo_inst Amo.min_u 4

unfoldable pub do_amomaxu_w : DecodeInfo → M (Unit {0})
unfolding do_amo_inst
do_amomaxu_w = do_amo_inst Amo.max_u 4

unfoldable pub do_lr_d : DecodeInfo → M (Unit {0})
unfolding do_load_reserved
do_lr_d = do_load_reserved 8

unfoldable pub do_sc_d : DecodeInfo → M (Unit {0})
unfolding do_store_conditional
do_sc_d = do_store_conditional 8

unfoldable pub do_amoswap_d : DecodeInfo → M (Unit {0})
unfolding do_amo_inst
do_amoswap_d = do_amo_inst Amo.swap 8

unfoldable pub do_amoadd_d : DecodeInfo → M (Unit {0})
unfolding do_amo_inst
do_amoadd_d = do_amo_inst Amo.add 8

unfoldable pub do_amoxor_d : DecodeInfo → M (Unit {0})
unfolding do_amo_inst
do_amoxor_d = do_amo_inst Amo.xor 8

unfoldable pub do_amoand_d : DecodeInfo → M (Unit {0})
unfolding do_amo_inst
do_amoand_d = do_amo_inst Amo.and 8

unfoldable pub do_amoor_d : DecodeInfo → M (Unit {0})
unfolding do_amo_inst
do_amoor_d = do_amo_inst Amo.or 8

unfoldable pub do_amomin_d : DecodeInfo → M (Unit {0})
unfolding do_amo_inst
do_amomin_d = do_amo_inst Amo.min_s 8

unfoldable pub do_amomax_d : DecodeInfo → M (Unit {0})
unfolding do_amo_inst
do_amomax_d = do_amo_inst Amo.max_s 8

unfoldable pub do_amominu_d : DecodeInfo → M (Unit {0})
unfolding do_amo_inst
do_amominu_d = do_amo_inst Amo.min_u 8

unfoldable pub do_amomaxu_d : DecodeInfo → M (Unit {0})
unfolding do_amo_inst
do_amomaxu_d = do_amo_inst Amo.max_u 8
