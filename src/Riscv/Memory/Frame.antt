-- ===== src/Riscv/Memory/Frame.antt =====
-- What the accesses of memory.cpp leave alone.
use kxemu.Base.Shared.{
  ℕ, zero, suc, arith, ◌*◌, ◌≡◌, ◌≢◌, refl, ◌==◌, ◌∙◌, Bool, true, false, not, ◌&&◌, ◌||◌,
  Bool-cases, Option, none, some, arith, inl, inr, Option-cases, ◌*◌, if◌then◌else◌,
}
use kxemu.Riscv.Core.{
  RvCore, M, Result, ok, trap, panic, undefined, ◌>>=◌, pure, priv_mode, TlbBlock, Translate, bare,
  sv39, sv48, sv57, unreachable,
}
use kxemu.Base.Word.{u64, add64, has_bit, ◌>>>◌}
use kxemu.Riscv.Def
use kxemu.Riscv.Def.{pgsize, machine}
use kxemu.Riscv.Memory.{
  load, store, block_allows, vaddr_translate_sv, access_page_unaligned, noexcept, fill_block,
  enter_leaf, leaf_address, leaf_faults, walk_entry, pte_ppn, vpn, within_page, bus_read, bus_write,
  pm_read, pm_write, pm_read_check, pm_write_check, set_block, write_back, tlb_push, leaf, walk,
  superpage_mask, pte_flag, VmResult, paddr, page_fault, access_fault, call_translate,
  vaddr_translate_core, or_throw, vm_read, vm_write, memory_load, memory_store, tlb_hit, tlb_set,
  tlb_set,
}

-- The registers of two states of a core, and its running state.
pub record IsSame (a b : RvCore) : Type 0 where
  pub gpr : a.gpr ≡ b.gpr
  pub csr : a.csr ≡ b.csr
  pub pc : a.pc ≡ b.pc
  pub npc : a.npc ≡ b.npc
  pub state : a.state ≡ b.state

IsSame-refl : (a : RvCore) → IsSame a a
IsSame-refl a = record { gpr = refl; csr = refl; pc = refl; npc = refl; state = refl }

IsSame-trans : {a b c : RvCore} → IsSame a b → IsSame b c → IsSame a c
IsSame-trans x y = record {
  gpr = x.gpr ∙ y.gpr;
  csr = x.csr ∙ y.csr;
  pc = x.pc ∙ y.pc;
  npc = x.npc ∙ y.npc;
  state = x.state ∙ y.state;
}

-- An action that leaves the registers alone, whatever its result.
abbrev pub Keeps : {A : Type 0} → M A → Type 0
Keeps m = (core : RvCore) → IsSame (m core).1 core

settle :
    {A B : Type 0} (f : A → M B) (r : Result A) (core core' : RvCore)
    → ((a : A) → Keeps (f a))
    → IsSame core' core
    → IsSame (((λ c. (r, core')) >>= f) core).1 core
settle f (ok a) core core' k h = IsSame-trans (k a core') h
settle f (trap code value) core core' k h = h
settle f panic core core' k h = h
settle f undefined core core' k h = h

pub bind-Keeps :
    {A B : Type 0} (m : M A) (f : A → M B) → Keeps m → ((a : A) → Keeps (f a)) → Keeps (m >>= f)
bind-Keeps m f h k core = settle f (m core).0 core (m core).1 k (h core)

bus_read-Keeps : (addr len : ℕ) → Keeps (bus_read addr len)
unfolding bus_read
bus_read-Keeps addr len core = ground arith

pub pm_read-Keeps : (addr len : ℕ) → Keeps (pm_read addr len)
unfolding pm_read bus_read
pm_read-Keeps addr len core = ground arith

pm_write-Keeps : (addr v len : ℕ) → Keeps (pm_write addr v len)
unfolding pm_write bus_write
pm_write-Keeps addr v len core = ground arith

write_back-Keeps : (b : TlbBlock) → Keeps (write_back b)
unfolding write_back noexcept
write_back-Keeps b core = elim (Bool-cases b.valid) [
  | inl p ↦ rw (p, write_back) (pm_write-Keeps b.pte_addr b.flag 1 core)
  | inr p ↦ rw (p, write_back) (IsSame-refl core)
]

fill_block-Keeps : (vaddr addr pte_addr flag : ℕ) → Keeps (fill_block vaddr addr pte_addr flag)
unfolding fill_block set_block
fill_block-Keeps vaddr addr pte_addr flag core = record {
  gpr = refl;
  csr = refl;
  pc = refl;
  npc = refl;
  state = refl;
}

tlb_push-Keeps : (vaddr addr pte_addr flag : ℕ) → Keeps (tlb_push vaddr addr pte_addr flag)
unfolding tlb_push
tlb_push-Keeps vaddr addr pte_addr flag core =
    let b = core.tlb (tlb_set vaddr) in
    bind-Keeps (write_back b) (λ u. fill_block vaddr addr pte_addr flag) (write_back-Keeps b)
      (λ u. fill_block-Keeps vaddr addr pte_addr flag) core

enter_leaf-Keeps :
    (superpage pte pte_addr vaddr : ℕ) → Keeps (enter_leaf superpage pte pte_addr vaddr)
unfolding enter_leaf
enter_leaf-Keeps superpage pte pte_addr vaddr =
    let addr = leaf_address superpage pte vaddr in
    bind-Keeps (tlb_push vaddr addr pte_addr (pte_flag pte)) (λ u. pure (paddr addr))
      (tlb_push-Keeps vaddr addr pte_addr (pte_flag pte)) (λ u core. IsSame-refl core)

leaf-Keeps :
    (i vpnbits pte pte_addr vaddr type : ℕ) → Keeps (leaf i vpnbits pte pte_addr vaddr type)
unfolding leaf
leaf-Keeps i vpnbits pte pte_addr vaddr type core =
    elim (Option-cases (superpage_mask (vpnbits * i))) [
      | inl p ↦ rw (p, leaf) (IsSame-refl core)
      | inr (superpage, p) ↦ elim (Bool-cases (leaf_faults i vpnbits pte type core)) [
        | inl q ↦ rw (p, leaf) (rw q (IsSame-refl core))
        | inr q ↦ rw (p, leaf) (rw q (enter_leaf-Keeps superpage pte pte_addr vaddr core))
      ]
    ]

pub choose-Keeps :
    {A : Type 0} (b : Bool) (m n : M A) → Keeps m → Keeps n → Keeps (if b then m else n)
choose-Keeps true m n h k = h
choose-Keeps false m n h k = k

walk_entry-Keeps :
    (next : ℕ → M VmResult) (i vpnbits pte_addr vaddr type : ℕ) (r : Option ℕ)
    → ((pte : ℕ) → Keeps (next pte))
    → Keeps (walk_entry next i vpnbits pte_addr vaddr type r)
unfolding walk_entry
walk_entry-Keeps next i vpnbits pte_addr vaddr type none k = λ core. IsSame-refl core
walk_entry-Keeps next i vpnbits pte_addr vaddr type (some pte) k =
    let fault : M VmResult = pure page_fault in
    let found = leaf i vpnbits pte pte_addr vaddr type in
    let descend : M VmResult =
      if has_bit (pte_flag pte) 1 || has_bit (pte_flag pte) 3 then found else next pte in
    let reserved = not (has_bit (pte_flag pte) 1) && has_bit (pte_flag pte) 2 in
    choose-Keeps (not (has_bit (pte_flag pte) 0)) fault (if reserved then fault else descend)
      (λ core. IsSame-refl core)
      (choose-Keeps reserved fault descend (λ core. IsSame-refl core)
        (choose-Keeps (has_bit (pte_flag pte) 1 || has_bit (pte_flag pte) 3) found (next pte)
          (leaf-Keeps i vpnbits pte pte_addr vaddr type) (k pte)))

walk-Keeps :
    (i ptesize vpnbits base vaddr type : ℕ) → Keeps (walk i ptesize vpnbits base vaddr type)
unfolding walk
walk-Keeps zero ptesize vpnbits base vaddr type = λ core. IsSame-refl core
walk-Keeps (suc i) ptesize vpnbits base vaddr type =
    let pte_addr = add64 base (vpn vaddr i vpnbits * ptesize) in
    let next : ℕ → M VmResult =
      λ pte. walk i ptesize vpnbits (u64 (pte_ppn pte * pgsize)) vaddr type in
    bind-Keeps (bus_read pte_addr ptesize) (walk_entry next i vpnbits pte_addr vaddr type)
      (bus_read-Keeps pte_addr ptesize)
      (λ r.
        walk_entry-Keeps next i vpnbits pte_addr vaddr type r
          (λ pte. walk-Keeps i ptesize vpnbits (u64 (pte_ppn pte * pgsize)) vaddr type))

call_translate-Keeps : (f : Translate) (vaddr type : ℕ) → Keeps (call_translate f vaddr type)
unfolding call_translate
call_translate-Keeps bare vaddr type = λ core. IsSame-refl core
call_translate-Keeps sv39 vaddr type =
    choose-Keeps (vaddr >>> 39 == (if has_bit vaddr 38 then 0x1ffffff else 0))
      (vaddr_translate_sv 3 8 9 vaddr type) (pure page_fault)
      (λ core. walk-Keeps 3 8 9 core.page_table_base vaddr type core) (λ core. IsSame-refl core)
call_translate-Keeps sv48 vaddr type = λ core. walk-Keeps 4 8 9 core.page_table_base vaddr type core
call_translate-Keeps sv57 vaddr type = λ core. walk-Keeps 5 8 9 core.page_table_base vaddr type core
call_translate-Keeps unreachable vaddr type = λ core. IsSame-refl core

pub vaddr_translate_core-Keeps : (vaddr type : ℕ) → Keeps (vaddr_translate_core vaddr type)
unfolding vaddr_translate_core set_block
vaddr_translate_core-Keeps vaddr type core = elim (Option-cases (tlb_hit vaddr core)) [
  | inl p ↦
      rw (p, vaddr_translate_core) (call_translate-Keeps core.vaddr_translate_func vaddr type core)
  | inr (b, p) ↦ elim (Bool-cases (block_allows b type core)) [
    | inl q ↦
        rw (p, vaddr_translate_core)
          (rw q (record { gpr = refl; csr = refl; pc = refl; npc = refl; state = refl }))
    | inr q ↦ rw (p, vaddr_translate_core) (rw q (IsSame-refl core))
  ]
]

pub or_throw-Keeps : (access page vaddr : ℕ) (r : VmResult) → Keeps (or_throw access page vaddr r)
unfolding or_throw
or_throw-Keeps access page vaddr (paddr a) = λ core. IsSame-refl core
or_throw-Keeps access page vaddr page_fault = λ core. IsSame-refl core
or_throw-Keeps access page vaddr access_fault = λ core. IsSame-refl core

within_page-Keeps :
    {A : Type 0} (vaddr len : ℕ) (m : M A) → Keeps m → Keeps (within_page vaddr len m)
unfolding within_page
within_page-Keeps vaddr len m k core = elim (Bool-cases (access_page_unaligned vaddr len)) [
  | inl p ↦ rw p (IsSame-refl core)
  | inr p ↦ rw p (k core)
]

vm_read-Keeps : (vaddr len : ℕ) → Keeps (vm_read vaddr len)
unfolding vm_read pm_read_check
vm_read-Keeps vaddr len =
    let translate = vaddr_translate_core vaddr load in
    let throws = or_throw Def.load_access_fault Def.load_page_fault vaddr in
    bind-Keeps (translate >>= throws) (λ addr. within_page vaddr len (pm_read addr len))
      (bind-Keeps translate throws (vaddr_translate_core-Keeps vaddr load)
        (or_throw-Keeps Def.load_access_fault Def.load_page_fault vaddr))
      (λ addr. within_page-Keeps vaddr len (pm_read addr len) (pm_read-Keeps addr len))

vm_write-Keeps : (vaddr v len : ℕ) → Keeps (vm_write vaddr v len)
unfolding vm_write pm_write_check
vm_write-Keeps vaddr v len =
    let translate = vaddr_translate_core vaddr store in
    let throws = or_throw Def.store_access_fault Def.store_page_fault vaddr in
    bind-Keeps (translate >>= throws) (λ addr. within_page vaddr len (pm_write addr v len))
      (bind-Keeps translate throws (vaddr_translate_core-Keeps vaddr store)
        (or_throw-Keeps Def.store_access_fault Def.store_page_fault vaddr))
      (λ addr. within_page-Keeps vaddr len (pm_write addr v len) (pm_write-Keeps addr v len))

-- Whatever the model gives, and also where it gives nothing.
pub load_and_store-Keeps :
    (addr v len : ℕ) (core : RvCore)
    → IsSame (memory_load addr len core).1 core × IsSame (memory_store addr v len core).1 core
unfolding memory_load memory_store
load_and_store-Keeps addr v len core = elim (Bool-cases (priv_mode core == machine)) [
  | inl p ↦ rw p (pm_read-Keeps addr len core, pm_write-Keeps addr v len core)
  | inr p ↦ rw p (vm_read-Keeps addr len core, vm_write-Keeps addr v len core)
]

-- In every mode and under every translation, a load and a store leave the general registers, the
-- control registers, pc and npc as they were, also when they end in a trap: the instruction can be
-- run again after the handler. This is said of accesses to memory, to UARTs and to addresses that are not
-- mapped: one that reaches the PLIC, the ACLINT or a VirtIO device, which may change `mip` at once, or that
-- leaves the array of its block is `undefined` in this model, and the theorem's hypotheses exclude it.
pub memory_keeps_registers :
    (addr v len : ℕ) (core : RvCore)
    → (memory_load addr len core).0 ≢ undefined
    → (memory_store addr v len core).0 ≢ undefined
    → IsSame (memory_load addr len core).1 core × IsSame (memory_store addr v len core).1 core
memory_keeps_registers addr v len core loads stores = load_and_store-Keeps addr v len core
