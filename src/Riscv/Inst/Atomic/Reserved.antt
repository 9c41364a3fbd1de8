-- ===== src/Riscv/Inst/Atomic/Reserved.antt =====
-- The pair of load-reserved and store-conditional of atomic.cpp, in M-mode.
use Prim.{Unit, tt}
use kxemu.Base.Shared.{
  ℕ, ◌-◌, ◌*◌, ◌%◌, ◌^◌, ◌<◌, ◌≡◌, refl, ap, sym, ◌∙◌, arith, bit_and, true, ◌==◌, List, Option,
  none, some, inl, inr,
}
use kxemu.Base.Word.{sub64}
use kxemu.Base.Signed.{sext, to_signed, of_signed}
use kxemu.Device.Bus
use kxemu.Device.Bus.{Bus, match_memory, replace_memory}
use kxemu.Device.Bus.Block.{MemoryBlock, done, read_le, write_le, is_width, is_inside}
use kxemu.Device.Bus.Atomic.{
  read-mapped, read-mapped_bus, read-lt, read_le-old, done-is_inside, is_inside_same,
  match-replace_start,
}
use kxemu.Device.Bus.Memory.{read_le-write_le}
use kxemu.Riscv.Def
use kxemu.Riscv.Def.{machine}
use kxemu.Riscv.Core.{RvCore, M, Result, ok, throw, bind-ok, priv_mode, set_gpr}
use kxemu.Riscv.Decode.{DecodeInfo}
use kxemu.Riscv.Memory.{bus_read}
use kxemu.Riscv.Inst.{src1, src2}
use kxemu.Riscv.Inst.Atomic.{
  amo_address, load_reserved_at, do_load_reserved, store_conditional_at, do_store_conditional,
  compare_exchange, reserve,
}
use kxemu.Riscv.Inst.Atomic.Update.{IsAtomicWidth, IsAtomicWidth-is_width, amo_address-machine}

-- Without a reservation for the aligned address in rs1, store-conditional stores nothing and puts 0, the
-- answer of success, into its destination.
pub store_conditional-unreserved :
    (len : ℕ) (d : DecodeInfo) (core : RvCore)
    → priv_mode core ≡ machine
    → bit_and (src1 d core) (len - 1) ≡ 0
    → core.reserved_memory (src1 d core) ≡ none
    → do_store_conditional len d core ≡ (ok tt, set_gpr d.rd 0 core)
unfolding do_store_conditional store_conditional_at
store_conditional-unreserved len d core p a e =
    bind-ok (amo_address (src1 d core) len) (store_conditional_at len d) (src1 d core) core core
      (amo_address-machine (src1 d core) len core p a)
    ∙ rw (e, store_conditional_at) refl

bus_read-mapped :
    (addr len old : ℕ) (core : RvCore) (m : MemoryBlock)
    → match_memory core.bus.memory_maps addr len ≡ some m
    → is_width len ≡ true
    → (Bus.read addr len core.bus).0 ≡ done old
    → bus_read addr len core ≡ (ok (some old), core)
unfolding bus_read
bus_read-mapped addr len old core m found w e =
    rw (read-mapped_bus core.bus addr len old m found w e) refl

load_reserved-machine :
    (len : ℕ) (d : DecodeInfo) (core : RvCore) (m : MemoryBlock) (old : ℕ)
    → IsAtomicWidth len
    → priv_mode core ≡ machine
    → bit_and (src1 d core) (len - 1) ≡ 0
    → match_memory core.bus.memory_maps (src1 d core) len ≡ some m
    → (Bus.read (src1 d core) len core.bus).0 ≡ done old
    → do_load_reserved len d core ≡ reserve d (src1 d core) (sext (8 * len) old) core
unfolding do_load_reserved load_reserved_at
load_reserved-machine len d core m old w p a found e =
    let addr = src1 d core in
    let answered : Option ℕ → M (Unit {0}) = λ r. elim r [
      | none ↦ throw Def.amo_access_fault addr
      | some v ↦ reserve d addr (sext (8 * len) v)
    ] in
    bind-ok (amo_address addr len) (load_reserved_at len d) addr core core
      (amo_address-machine addr len core p a)
    ∙ bind-ok (bus_read addr len) answered (some old) core core
        (bus_read-mapped addr len old core m found (IsAtomicWidth-is_width len w) e)

sext_32-low : (old : ℕ) → old < 256 ^ 4 → sext 32 old % 2 ^ 32 ≡ old
unfolding sext to_signed of_signed
sext_32-low old h = ground arith

sext_64-low : (old : ℕ) → old < 256 ^ 8 → sext 64 old % 2 ^ 64 ≡ old
unfolding sext to_signed of_signed
sext_64-low old h = ground arith

-- The low digits of a sign-extended value.
sext-low :
    (len old : ℕ) → IsAtomicWidth len → old < 256 ^ len → sext (8 * len) old % 2 ^ (8 * len) ≡ old
sext-low len old (inl e) h =
    let below : old < 256 ^ 4 = omega (arith, ap (λ (t : ℕ). 256 ^ t) e) in
    rw e (sext_32-low old below)
sext-low len old (inr e) h =
    let below : old < 256 ^ 8 = omega (arith, ap (λ (t : ℕ). 256 ^ t) e) in
    rw e (sext_64-low old below)

-- What store-conditional leaves when its reservation still holds the bytes in memory.
record IsStored (len addr : ℕ) (d : DecodeInfo) (core : RvCore) (r : Result (Unit {0}) × RvCore)
    : Type 0 where
  result : r.0 ≡ ok tt
  rd : r.1.gpr d.rd ≡ 0
  dropped : r.1.reserved_memory addr ≡ none
  read : (Bus.read addr len r.1.bus).0 ≡ done (src2 d core % 256 ^ len)

compare_exchange-IsStored :
    (len addr expected old : ℕ) (d : DecodeInfo) (core : RvCore) (m : MemoryBlock)
    → IsAtomicWidth len
    → match_memory core.bus.memory_maps addr len ≡ some m
    → match_memory core.bus.memory_maps addr 0 ≡ some m
    → (Bus.read addr len core.bus).0 ≡ done old
    → expected % 2 ^ (8 * len) ≡ old
    → IsStored len addr d core (compare_exchange len d addr expected m core)
unfolding compare_exchange
compare_exchange-IsStored len addr expected old d core m w found ptr e ex =
    let width : is_width len ≡ true = IsAtomicWidth-is_width len w in
    let bytes : read_le m.contents (sub64 addr m.start) len ≡ old =
      read_le-old core.bus addr len old m found width e in
    let success : (read_le m.contents (sub64 addr m.start) len == expected % 2 ^ (8 * len)) ≡ true =
      ground arith in
    let within : is_inside m addr len ≡ true =
      done-is_inside core.bus addr len old m found width e in
    let m' : MemoryBlock = record m {
      contents = write_le m.contents (sub64 addr m.start) (src2 d core) len;
    } in
    let maps : List MemoryBlock = replace_memory core.bus.memory_maps addr 0 m' in
    let bus' : Bus = record (core.bus) { memory_maps = maps } in
    let same : (d.rd == d.rd) ≡ true = ground arith in
    let here : (addr == addr) ≡ true = ground arith in
    rw (within, success)
      (record {
        result = refl;
        rd = rw same refl;
        dropped = rw here refl;
        read =
            read-mapped bus' addr len m'
              (match-replace_start core.bus.memory_maps addr len m m' found ptr refl refl) width
              (is_inside_same m m' addr len refl refl within)
            ∙ rw (read_le-write_le len m.contents (sub64 addr m.start) (src2 d core)) refl;
      })

store_conditional-IsStored :
    (len addr expected old : ℕ) (d : DecodeInfo) (core : RvCore) (m : MemoryBlock)
    → IsAtomicWidth len
    → priv_mode core ≡ machine
    → src1 d core ≡ addr
    → bit_and addr (len - 1) ≡ 0
    → core.reserved_memory addr ≡ some expected
    → match_memory core.bus.memory_maps addr len ≡ some m
    → Bus.get_ptr addr core.bus ≡ some m
    → (Bus.read addr len core.bus).0 ≡ done old
    → expected % 2 ^ (8 * len) ≡ old
    → IsStored len addr d core (do_store_conditional len d core)
unfolding do_store_conditional store_conditional_at Bus.get_ptr
store_conditional-IsStored len addr expected old d core m w p at a r found ptr e ex =
    let step : do_store_conditional len d core ≡ store_conditional_at len d (src1 d core) core =
      bind-ok (amo_address (src1 d core) len) (store_conditional_at len d) (src1 d core) core core
        (amo_address-machine (src1 d core) len core p (ap (λ t. bit_and t (len - 1)) at ∙ a)) in
    let taken : store_conditional_at len d addr core ≡ compare_exchange len d addr expected m core =
      rw (r, store_conditional_at) (rw (ptr, store_conditional_at) refl) in
    rw (step ∙ ap (λ t. store_conditional_at len d t core) at ∙ taken)
      (compare_exchange-IsStored len addr expected old d core m w found ptr e ex)

-- In M-mode, load-reserved at an aligned address of mapped memory followed on the same core by
-- store-conditional to that address succeeds: the first puts the sign-extended value into its destination
-- and changes no memory, the second puts 0 into its own, stores the low bytes of its rs2 and drops the
-- reservation.
pub store_conditional-load_reserved :
    (len : ℕ) (d d' : DecodeInfo) (core : RvCore) (m : MemoryBlock) (old : ℕ)
    → IsAtomicWidth len
    → priv_mode core ≡ machine
    → bit_and (src1 d core) (len - 1) ≡ 0
    → match_memory core.bus.memory_maps (src1 d core) len ≡ some m
    → Bus.get_ptr (src1 d core) core.bus ≡ some m
    → (Bus.read (src1 d core) len core.bus).0 ≡ done old
    → src1 d' (do_load_reserved len d core).1 ≡ src1 d core
    → let (loaded, core1) = do_load_reserved len d core in
      let (stored, core2) = do_store_conditional len d' core1 in
      (loaded ≡ ok tt)
      × (core1.gpr d.rd ≡ sext (8 * len) old)
      × (core1.bus ≡ core.bus)
      × (stored ≡ ok tt)
      × (core2.gpr d'.rd ≡ 0)
      × (core2.reserved_memory (src1 d core) ≡ none)
      × ((Bus.read (src1 d core) len core2.bus).0 ≡ done (src2 d' core1 % 256 ^ len))
unfolding reserve
store_conditional-load_reserved len d d' core m old w p a found ptr e same =
    let addr = src1 d core in
    let core1 = (reserve d addr (sext (8 * len) old) core).1 in
    let loaded : do_load_reserved len d core ≡ (ok tt, core1) =
      load_reserved-machine len d core m old w p a found e in
    let at : src1 d' core1 ≡ addr = sym (ap (λ t. src1 d' t.1) loaded) ∙ same in
    let same_rd : (d.rd == d.rd) ≡ true = ground arith in
    let here : (addr == addr) ≡ true = ground arith in
    let reserved : core1.reserved_memory addr ≡ some (sext (8 * len) old) = rw here refl in
    let narrow =
      sext-low len old w (read-lt core.bus addr len old m found (IsAtomicWidth-is_width len w) e) in
    let s =
      store_conditional-IsStored len addr (sext (8 * len) old) old d' core1 m w p at a reserved
        found ptr e narrow in
    rw loaded (refl, rw same_rd refl, refl, s.result, s.rd, s.dropped, s.read)
