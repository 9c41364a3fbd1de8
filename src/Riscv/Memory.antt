-- ===== src/Riscv/Memory.antt =====
-- src/cpu/riscv/memory.cpp with include/cpu/riscv/addr.hpp and pte.hpp: translation of virtual
-- addresses with the lookaside buffer (32 sets), and the accesses of instructions.
pub mod Frame
pub mod Fetch
pub mod Tlb
mod Tests
use Prim.{Unit, tt}
use kxemu.Base.Shared.{
  ℕ, zero, suc, ◌+◌, ◌-◌, ◌*◌, ◌/◌, ◌%◌, ◌^◌, bit_and, bit_or, Bool, true, false, not, ◌&&◌, ◌||◌,
  ◌==◌, ltb, leb, if◌then◌else◌, Option, none, some,
}
use kxemu.Base.Word.{u32, u64, add64, not64, has_bit, to_bool, ◌<<<◌, ◌>>>◌}
use kxemu.Base.Signed.{sext}
use kxemu.Device.Bus
use kxemu.Device.Bus.{Bus}
use kxemu.Device.Bus.Block.{Access, done, invalid, outside}
use kxemu.Riscv.Def
use kxemu.Riscv.Def.{machine, supervisor, user, pgbits, pgsize}
use kxemu.Riscv.Core.{
  RvCore, M, Result, ok, trap, panic, undefined, ◌>>=◌, ◌>>◌, pure, throw, priv_mode, TlbBlock,
  Translate, bare, sv39, sv48, sv57, unreachable,
}

-- enum MemType
abbrev pub dont_care : ℕ
dont_care = 0

abbrev pub load : ℕ
load = 2

abbrev pub store : ℕ
store = 4

abbrev pub fetch : ℕ
fetch = 8

abbrev pub amo_type : ℕ
amo_type = 6

-- class Addr
abbrev pub tlb_set : ℕ → ℕ
tlb_set addr = bit_and addr ((2 ^ 5 - 1) <<< pgbits) >>> pgbits

abbrev pub tlb_tag : ℕ → ℕ
tlb_tag addr = bit_and addr ((2 ^ 47 - 1) <<< 17)

abbrev pub tlb_off : ℕ → ℕ
tlb_off addr = bit_and addr (2 ^ pgbits - 1)

abbrev pub tlb_tag_and_set : ℕ → ℕ
tlb_tag_and_set addr = bit_and addr (not64 (2 ^ pgbits - 1))

abbrev pub vpn : ℕ → ℕ → ℕ → ℕ
vpn addr level vpnbits = bit_and (addr >>> (pgbits + level * vpnbits)) (2 ^ vpnbits - 1)

-- class PTE, and set_a and set_d of class PTEFlag
abbrev pub pte_flag : ℕ → ℕ
pte_flag pte = bit_and pte 0xff

abbrev pub pte_ppn : ℕ → ℕ
pte_ppn pte = pte >>> 10

abbrev pub set_a : ℕ → ℕ
set_a flag = bit_or flag (2 ^ 6)

abbrev pub set_d : ℕ → ℕ
set_d flag = bit_or flag (2 ^ 7)

-- VMResult: a physical address, or a VMFault
pub data VmResult : Type 0 where
  paddr : ℕ → VmResult
  page_fault access_fault : VmResult

-- What the bus answers, with the bus after it.
unfoldable pub bus_read : ℕ → ℕ → M (Option ℕ)
bus_read addr len core =
    let (r, bus') = Bus.read addr len core.bus in
    (
      elim r [
        | done v ↦ ok (some v)
        | invalid ↦ ok none
        | Access.panic ↦ panic
        | outside ↦ undefined
      ],
      record core { bus = bus' },
    )

unfoldable pub bus_write : ℕ → ℕ → ℕ → M Bool
bus_write addr v len core =
    let (r, bus') = Bus.write addr v len core.bus in
    (
      elim r [ done b ↦ ok b | invalid ↦ ok false | Access.panic ↦ panic | outside ↦ undefined ],
      record core { bus = bus' },
    )

abbrev pub pm_read_check_optional : ℕ → ℕ → M (Option ℕ)
pm_read_check_optional = bus_read

-- What an invalid Bus::read of four bytes returns: 0 where nothing is mapped, and a UART's -1.
pub invalid_word : ℕ → Bus → ℕ
invalid_word addr bus = elim (Bus.match_mmio bus.mmio_maps addr 4) [
  | none ↦ 0
  | some _ ↦ 2 ^ 64 - 1
]

-- `inst` takes the word before `valid` is tested.
unfoldable pub pm_fetch : ℕ → M (Unit {0})
unfolding invalid_word
pm_fetch addr = bus_read addr 4 >>= λ r core. elim r [
  | some v ↦ (ok tt, record core { inst = u32 v })
  | none ↦
      throw Def.inst_access_fault addr (record core { inst = u32 (invalid_word addr core.bus) })
]

unfoldable pub pm_read : ℕ → ℕ → M ℕ
pm_read addr len =
    bus_read addr len >>= λ r. elim r [ some v ↦ pure v | none ↦ throw Def.load_access_fault addr ]

unfoldable pub pm_write : ℕ → ℕ → ℕ → M (Unit {0})
pm_write addr v len =
    bus_write addr v len >>= λ b. if b then pure tt else throw Def.store_access_fault addr

-- The PMP checks always pass (csr.cpp).
unfoldable pub pm_read_check : ℕ → ℕ → M ℕ
pm_read_check addr len = pm_read addr len

unfoldable pub pm_write_check : ℕ → ℕ → ℕ → M (Unit {0})
pm_write_check addr v len = pm_write addr v len

unfoldable pub set_block : ℕ → TlbBlock → RvCore → RvCore
set_block i b core = record core { tlb = λ j. if j == i then b else core.tlb j }

-- The body of a `noexcept` function: a trap that is thrown through it ends the program.
unfoldable pub noexcept : {A : Type 0} → M A → M A
noexcept m core =
    let (r, core') = m core in
    (
      elim r [ ok a ↦ ok a | trap code value ↦ panic | panic ↦ panic | undefined ↦ undefined ],
      core',
    )

-- tlb_push writes back the flags of the block that it replaces.
unfoldable pub write_back : TlbBlock → M (Unit {0})
write_back b core = if b.valid then noexcept (pm_write b.pte_addr b.flag 1) core else (ok tt, core)

unfoldable pub fill_block : ℕ → ℕ → ℕ → ℕ → M (Unit {0})
fill_block vaddr addr pte_addr flag core = (
  ok tt,
  set_block (tlb_set vaddr)
      (record {
        paddr = tlb_tag_and_set addr;
        tag = tlb_tag vaddr;
        pte_addr = pte_addr;
        valid = true;
        flag = flag;
      })
      core,
)

unfoldable pub tlb_push : ℕ → ℕ → ℕ → ℕ → M (Unit {0})
tlb_push vaddr addr pte_addr flag core =
    (write_back (core.tlb (tlb_set vaddr)) >>= λ _. fill_block vaddr addr pte_addr flag) core

unfoldable pub tlb_hit : ℕ → RvCore → Option TlbBlock
tlb_hit vaddr core =
    let b = core.tlb (tlb_set vaddr) in if b.valid && (b.tag == tlb_tag vaddr) then some b else none

-- `((1 << (VPNBITS * i)) - 1) << PGBITS` with `int` shifts: from 32 on, the first is undefined.
unfoldable pub superpage_mask : ℕ → Option ℕ
superpage_mask shift =
    if ltb shift 32 then some (sext 32 (u32 ((2 ^ shift - 1) <<< pgbits))) else none

unfoldable pub u_page_accessible : RvCore → Bool
u_page_accessible core = priv_mode core == user || core.sum

-- The checks of a leaf at level `i`: whether it is a page fault.
unfoldable pub leaf_faults : ℕ → ℕ → ℕ → ℕ → RvCore → Bool
leaf_faults i vpnbits pte type core =
    let flag = pte_flag pte in
    if ltb 0 i && not (bit_and (pte_ppn pte) (2 ^ (vpnbits * i) - 1) == 0)
    then true
    else if has_bit flag 4 && not (u_page_accessible core)
    then true
    else if not (has_bit flag 4) && (priv_mode core == user)
    then true
    else not (bit_and (bit_and flag 0xf) type == type)

-- The physical address of a page or superpage.
unfoldable pub leaf_address : ℕ → ℕ → ℕ → ℕ
leaf_address superpage pte vaddr =
    let mask = bit_or (pgsize - 1) superpage in
    bit_or (bit_and (u64 (pte <<< 2)) (not64 mask)) (bit_and vaddr mask)

unfoldable pub enter_leaf : ℕ → ℕ → ℕ → ℕ → M VmResult
enter_leaf superpage pte pte_addr vaddr =
    let addr = leaf_address superpage pte vaddr in
    tlb_push vaddr addr pte_addr (pte_flag pte) >>= λ _. pure (paddr addr)

unfoldable pub leaf : ℕ → ℕ → ℕ → ℕ → ℕ → ℕ → M VmResult
leaf i vpnbits pte pte_addr vaddr type core = elim (superpage_mask (vpnbits * i)) [
  | none ↦ (undefined, core)
  | some superpage ↦
      if leaf_faults i vpnbits pte type core
      then (ok page_fault, core)
      else enter_leaf superpage pte pte_addr vaddr core
]

-- What a turn of the loop does with the entry that it read; `next` is the rest of the loop.
unfoldable pub walk_entry : (ℕ → M VmResult) → ℕ → ℕ → ℕ → ℕ → ℕ → Option ℕ → M VmResult
walk_entry next i vpnbits pte_addr vaddr type none = pure access_fault
walk_entry next i vpnbits pte_addr vaddr type (some pte) =
    let flag = pte_flag pte in
    if not (has_bit flag 0)
    then pure page_fault
    else if not (has_bit flag 1) && has_bit flag 2
    then pure page_fault
    else if has_bit flag 1 || has_bit flag 3
    then leaf i vpnbits pte pte_addr vaddr type
    else next pte

-- The loop of vaddr_translate_sv with `levels` turns left, from the table at `base` on; after the
-- last one std::unreachable.
unfoldable pub walk : ℕ → ℕ → ℕ → ℕ → ℕ → ℕ → M VmResult
walk zero ptesize vpnbits base vaddr type = λ core. (undefined, core)
walk (suc i) ptesize vpnbits base vaddr type =
    let pte_addr = add64 base (vpn vaddr i vpnbits * ptesize) in
    let next : ℕ → M VmResult =
      λ pte. walk i ptesize vpnbits (u64 (pte_ppn pte * pgsize)) vaddr type in
    pm_read_check_optional pte_addr ptesize >>= walk_entry next i vpnbits pte_addr vaddr type

abbrev pub vaddr_translate_sv : ℕ → ℕ → ℕ → ℕ → ℕ → M VmResult
vaddr_translate_sv levels ptesize vpnbits vaddr type core =
    walk levels ptesize vpnbits core.page_table_base vaddr type core

-- `(this->*vaddr_translate_func)(vaddr, type)`
unfoldable pub call_translate : Translate → ℕ → ℕ → M VmResult
call_translate bare vaddr type = pure (paddr vaddr)
call_translate sv39 vaddr type =
    if vaddr >>> 39 == (if has_bit vaddr 38 then 0x1ffffff else 0)
    then vaddr_translate_sv 3 8 9 vaddr type
    else pure page_fault
call_translate sv48 vaddr type = vaddr_translate_sv 4 8 9 vaddr type
call_translate sv57 vaddr type = vaddr_translate_sv 5 8 9 vaddr type
call_translate unreachable vaddr type = λ core. (undefined, core)

-- The condition on a block that is hit.
unfoldable pub block_allows : TlbBlock → ℕ → RvCore → Bool
block_allows b type core =
    (bit_and b.flag type == type)
    && (if has_bit b.flag 4 then u_page_accessible core else priv_mode core == supervisor)

unfoldable pub vaddr_translate_core : ℕ → ℕ → M VmResult
vaddr_translate_core vaddr type core = elim (tlb_hit vaddr core) [
  | some b ↦
      if block_allows b type core
      then (
        ok (paddr (add64 b.paddr (tlb_off vaddr))),
        set_block (tlb_set vaddr)
            (record b { flag = if has_bit type 2 then set_d (set_a b.flag) else set_a b.flag })
            core,
      )
      else (ok page_fault, core)
  | none ↦ call_translate core.vaddr_translate_func vaddr type core
]

-- A fault as the trap that the access throws.
unfoldable pub or_throw : ℕ → ℕ → ℕ → VmResult → M ℕ
or_throw access page vaddr (paddr a) = pure a
or_throw access page vaddr page_fault = throw page vaddr
or_throw access page vaddr access_fault = throw access vaddr

unfoldable pub access_page_unaligned : ℕ → ℕ → Bool
access_page_unaligned addr len =
    not (bit_and addr (not64 (pgsize - 1)) == bit_and (add64 addr (len - 1)) (not64 (pgsize - 1)))

unfoldable pub vm_fetch : M (Unit {0})
vm_fetch core =
    let vaddr = core.pc in
    let translate : ℕ → M ℕ = λ a.
      vaddr_translate_core a fetch >>= or_throw Def.inst_access_fault Def.inst_page_fault vaddr in
    let set_inst : ℕ → M (Unit {0}) = λ v c. (ok tt, record c { inst = u32 v }) in
    (translate vaddr >>= λ addr.
    if access_page_unaligned vaddr 4
    then (pm_read_check addr 2 >>= λ low.
        if not (bit_and low 0x3 == 0x3)
        then set_inst low
        else (translate (add64 vaddr 2) >>= λ addr2.
            pm_read_check addr2 2 >>= λ high. set_inst (bit_or (u32 (high <<< 16)) low)))
    else pm_read_check addr 4 >>= set_inst)
      core

-- NOT_IMPLEMENTED, for an access over the end of a page, is a panic.
unfoldable pub within_page : {A : Type 0} → ℕ → ℕ → M A → M A
within_page vaddr len access core =
    if access_page_unaligned vaddr len then (panic, core) else access core

unfoldable pub vm_read : ℕ → ℕ → M ℕ
vm_read vaddr len =
    vaddr_translate_core vaddr load
    >>= or_throw Def.load_access_fault Def.load_page_fault vaddr
    >>= λ addr. within_page vaddr len (pm_read_check addr len)

unfoldable pub vm_write : ℕ → ℕ → ℕ → M (Unit {0})
vm_write vaddr v len =
    vaddr_translate_core vaddr store
    >>= or_throw Def.store_access_fault Def.store_page_fault vaddr
    >>= λ addr. within_page vaddr len (pm_write_check addr v len)

unfoldable pub memory_fetch : M (Unit {0})
memory_fetch core = if priv_mode core == machine then pm_fetch core.pc core else vm_fetch core

unfoldable pub memory_load : ℕ → ℕ → M ℕ
memory_load addr len core =
    if priv_mode core == machine then pm_read addr len core else vm_read addr len core

unfoldable pub memory_store : ℕ → ℕ → ℕ → M (Unit {0})
memory_store addr v len core =
    if priv_mode core == machine then pm_write addr v len core else vm_write addr v len core

-- vaddr_translate, for the debugger
pub vaddr_translate : ℕ → M (Bool × ℕ)
vaddr_translate vaddr = vaddr_translate_core vaddr dont_care >>= λ r. elim r [
  | paddr a ↦ pure (true, a)
  | page_fault ↦ pure (false, 2 ^ 64 - 0x00caffee)
  | access_fault ↦ pure (false, 2 ^ 64 - 0x00caffee)
]
