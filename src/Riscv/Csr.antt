-- ===== src/Riscv/Csr.antt =====
-- class RVCSR of src/cpu/riscv/csr/csr.cpp and csr-rw.cpp (the 64-bit build without assertions).
-- The keys of the map are fixed by the constructor; a register's current value is a function of
-- the address. `uptime` is what `get_uptime` would answer at this moment.
pub mod Views
pub mod Pmp
pub mod Reach
mod Tests
use kxemu.Base.Shared.{
  ℕ, zero, suc, ◌+◌, ◌-◌, ◌*◌, ◌/◌, ◌%◌, ◌^◌, bit_and, Bool, true, false, not, ◌&&◌, ◌==◌, ltb, leb,
  if◌then◌else◌, List, [], ◌∷◌, ◌++◌, Option, none, some,
}
use kxemu.Base.Word.{u64, add64, not64, ◌<<<◌}
use kxemu.Riscv.Def
use kxemu.Riscv.Def.{machine, supervisor}
use kxemu.Riscv.Field.MStatus
use kxemu.Riscv.Field.Mip
use kxemu.Riscv.Field.Mie
use kxemu.Riscv.Field.Satp
use kxemu.Riscv.Field.Other.{
  pmp_item, pmp_r, pmp_w, pmp_x, pmp_a, pmp_addr, misa_value, counter_tm, env_stce, get_fflags,
  get_frm, set_fflags, set_frm,
}

-- The member functions that the map's entries point to; `direct` is nullptr.
pub data ReadFunc : Type 0 where
  direct read_sstatus read_fflags read_frm read_time : ReadFunc

pub data WriteFunc : Type 0 where
  plain write_mip write_pmpcfg write_pmpaddr write_sstatus write_sie write_sip : WriteFunc
  write_satp write_fflags write_frm : WriteFunc

-- `writeCallback`, as `RVCore::init_csr` sets it.
pub data Callback : Type 0 where
  no_callback update_stimecmp update_vm_translate update_mstatus : Callback

pub record Entry : Type 0 where
  pub addr : ℕ
  pub read_func : ReadFunc
  pub write_func : WriteFunc
  pub reset_value : ℕ

pub record PmpRegion : Type 0 where
  pub start : ℕ
  pub end : ℕ
  pub r : Bool
  pub w : Bool
  pub x : Bool

pub record Rvcsr : Type 0 where
  pub value : ℕ → ℕ
  pub hart_id : ℕ
  pub priv_mode : ℕ
  pub pmp_cfg : List PmpRegion
  pub uptime : ℕ

-- add_csr(addr) with the defaults, with functions, and with a reset value
abbrev pub add_csr : ℕ → Entry
add_csr a = record { addr = a; read_func = direct; write_func = plain; reset_value = 0 }

abbrev pub add_csr_rw : ℕ → ReadFunc → WriteFunc → Entry
add_csr_rw a r w = record { addr = a; read_func = r; write_func = w; reset_value = 0 }

abbrev pub add_csr_reset : ℕ → ℕ → Entry
add_csr_reset a v = record { addr = a; read_func = direct; write_func = plain; reset_value = v }

-- `count` registers from `addr` on, `step` apart
unfoldable pub add_csrs : ℕ → ℕ → ℕ → WriteFunc → List Entry
add_csrs zero step addr w = []
add_csrs (suc count) step addr w = add_csr_rw addr direct w ∷ add_csrs count step (addr + step) w

-- The constructor's calls of add_csr, in order.
unfoldable pub csr_table : List Entry
csr_table =
    (add_csr_reset Def.mvendorid Def.kxemu_vendorid
      ∷ add_csr_reset Def.marchid Def.kxemu_archid
      ∷ add_csr Def.mimpid
      ∷ add_csr Def.mhartid
      ∷ add_csr Def.mcfgptr
      ∷ add_csr_reset Def.mstatus 0x1800
      ∷ add_csr_reset Def.misa misa_value
      ∷ add_csr Def.medeleg
      ∷ add_csr Def.mideleg
      ∷ add_csr Def.mie
      ∷ add_csr Def.mtvec
      ∷ add_csr Def.mcnten
      ∷ add_csr Def.mscratch
      ∷ add_csr Def.mepc
      ∷ add_csr Def.mcause
      ∷ add_csr Def.mtval
      ∷ add_csr_rw Def.mip direct write_mip
      ∷ add_csr Def.mtinst
      ∷ add_csr Def.mtval2
      ∷ add_csr Def.menvcfg
      ∷ add_csr Def.mseccfg
      ∷ [])
    ++ (add_csrs 8 2 Def.pmpcfg0 write_pmpcfg
        ++ (add_csrs 64 1 Def.pmpaddr0 write_pmpaddr
            ++ (add_csr_rw Def.sstatus read_sstatus write_sstatus
                ∷ add_csr_rw Def.sie direct write_sie
                ∷ add_csr Def.stinst
                ∷ add_csr Def.stvec
                ∷ add_csr Def.scnten
                ∷ add_csr Def.sscratch
                ∷ add_csr Def.sepc
                ∷ add_csr Def.scause
                ∷ add_csr Def.stval
                ∷ add_csr_rw Def.sip direct write_sip
                ∷ add_csr Def.stimecmp
                ∷ add_csr_rw Def.satp direct write_satp
                ∷ add_csr_rw Def.fflags read_fflags write_fflags
                ∷ add_csr_rw Def.frm read_frm write_frm
                ∷ add_csr Def.fcsr
                ∷ add_csr Def.cycle
                ∷ add_csr_rw Def.time read_time plain
                ∷ [])))

unfoldable pub find_csr : ℕ → List Entry → Option Entry
find_csr a [] = none
find_csr a (e ∷ es) = if e.addr == a then some e else find_csr a es

-- init_csr
pub callback_of : ℕ → Callback
callback_of a =
    if a == Def.stimecmp
    then update_stimecmp
    else if a == Def.satp
    then update_vm_translate
    else if a == Def.mstatus
    then update_mstatus
    else if a == Def.sstatus
    then update_mstatus
    else no_callback

abbrev pub get_csr_value : Rvcsr → ℕ → ℕ
get_csr_value c a = c.value a

abbrev pub set_csr_value : Rvcsr → ℕ → ℕ → Rvcsr
set_csr_value c a v = record c { value = λ b. if b == a then v else c.value b }

-- Every register gets its reset value; that of mhartid is the hart's number (RVCSR::init).
pub reset_value_of : ℕ → ℕ → ℕ
reset_value_of hart a =
    if a == Def.mhartid
    then hart
    else elim (find_csr a csr_table) [ none ↦ 0 | some e ↦ e.reset_value ]

pub reset : Rvcsr → Rvcsr
reset c = record c { value = reset_value_of c.hart_id; pmp_cfg = [] }

-- __builtin_ctzll(~pmpaddr): the number of ones at the low end, over 64 digits
pub trailing_ones : ℕ → ℕ → ℕ
trailing_ones zero a = 0
trailing_ones (suc fuel) a =
    let rest = trailing_ones fuel (a / 2) in if a % 2 == 1 then rest + 1 else 0

region : ℕ → ℕ → ℕ → Option PmpRegion
region cfg start end =
    some (record { start = start; end = end; r = pmp_r cfg; w = pmp_w cfg; x = pmp_x cfg })

-- One turn of the loops of reload_pmpcfg: the region of entry `index`, if it adds one.
pub pmp_region : Rvcsr → ℕ → Option PmpRegion
pmp_region c index =
    let cfg = pmp_item (get_csr_value c (Def.pmpcfg0 + 2 * (index / 8))) (index % 8) in
    let addr = get_csr_value c (Def.pmpaddr0 + index) in
    let before = get_csr_value c (Def.pmpaddr0 + index - 1) in
    let ones = trailing_ones 64 addr in
    let base = bit_and addr (not64 (2 ^ ones - 1)) in
    if pmp_a cfg == 0
    then none
    else if pmp_a cfg == 1
    then (if index == 0
        then region cfg 0 (u64 (addr <<< 2))
        else if leb (u64 (before <<< 2)) (u64 (addr <<< 2))
        then region cfg (u64 (before <<< 2)) (u64 (addr <<< 2))
        else none)
    else if pmp_a cfg == 2
    then region cfg (u64 (addr <<< 2)) (add64 (u64 (addr <<< 2)) 4)
    else region cfg base (add64 base (u64 (8 <<< ones)))

-- The loops over the eight registers of eight entries, `count` entries left from `index` on.
pub pmp_regions : Rvcsr → ℕ → ℕ → List PmpRegion
pmp_regions c zero index = []
pmp_regions c (suc count) index =
    let rest = pmp_regions c count (index + 1) in
    elim (pmp_region c index) [ none ↦ rest | some p ↦ p ∷ rest ]

pub reload_pmpcfg : Rvcsr → Rvcsr
reload_pmpcfg c = record c { pmp_cfg = pmp_regions c 64 0 }

-- A privilege mode other than the three is std::unreachable.
pub time_readable : Rvcsr → Bool
time_readable c =
    let mcnten = get_csr_value c Def.mcnten in
    let scnten = get_csr_value c Def.scnten in
    let sstc = env_stce (get_csr_value c Def.menvcfg) in
    if c.priv_mode == machine
    then true
    else if c.priv_mode == supervisor
    then counter_tm mcnten && sstc
    else counter_tm mcnten && counter_tm scnten

-- `this->*readFunc`
unfoldable pub call_read : ReadFunc → ℕ → Rvcsr → Option ℕ
call_read direct a c = some (get_csr_value c a)
call_read read_sstatus a c = some (MStatus.sstatus (get_csr_value c Def.mstatus))
call_read read_fflags a c = some (get_fflags (get_csr_value c Def.fcsr))
call_read read_frm a c = some (get_frm (get_csr_value c Def.fcsr))
call_read read_time a c = if time_readable c then some (Def.realtime_to_mtime c.uptime) else none

-- `this->*writeFunc`; each returns true.
pub call_write : WriteFunc → ℕ → ℕ → Rvcsr → Rvcsr
call_write plain a v c = set_csr_value c a v
call_write write_mip a v c = set_csr_value c Def.mip (Mip.set_mip (get_csr_value c Def.mip) v)
call_write write_pmpcfg a v c = reload_pmpcfg (set_csr_value c a v)
call_write write_pmpaddr a v c = reload_pmpcfg (set_csr_value c a (pmp_addr v))
call_write write_sstatus a v c =
    set_csr_value c Def.mstatus (MStatus.set_sstatus (get_csr_value c Def.mstatus) v)
-- The MIE constructor masks the stored value first.
call_write write_sie a v c =
    set_csr_value c Def.mie (Mie.set_sie (Mie.of_word (get_csr_value c Def.mie)) v)
call_write write_sip a v c = set_csr_value c Def.mip (Mip.set_sip (get_csr_value c Def.mip) v)
call_write write_satp a v c = set_csr_value c Def.satp (Satp.set_asid (Satp.of_word v) 0)
call_write write_fflags a v c = set_csr_value c Def.fcsr (set_fflags (get_csr_value c Def.fcsr) v)
call_write write_frm a v c = set_csr_value c Def.fcsr (set_frm (get_csr_value c Def.fcsr) v)

-- `valid` and the value; a failed read function leaves -1, a missing register 0.
unfoldable pub read_csr : ℕ → Rvcsr → Bool × ℕ
read_csr a c = elim (find_csr a csr_table) [
  | none ↦ (false, 0)
  | some e ↦ elim (call_read e.read_func a c) [ none ↦ (false, 2 ^ 64 - 1) | some v ↦ (true, v) ]
]

-- Whether the write was valid, the registers after it, and the callback that the core then runs.
pub write_csr : ℕ → ℕ → Rvcsr → Bool × Rvcsr × Callback
write_csr a v c = elim (find_csr a csr_table) [
  | none ↦ (false, c, no_callback)
  | some e ↦ (true, call_write e.write_func a v c, callback_of a)
]

-- pmp_check, which the three permission checks do not call.
pub pmp_check : List PmpRegion → ℕ → ℕ → Option PmpRegion
pmp_check [] addr len = none
pmp_check (p ∷ ps) addr len =
    if leb p.start addr && ltb (u64 (addr + len)) p.end then some p else pmp_check ps addr len

pub pmp_check_r : ℕ → ℕ → Rvcsr → Bool
pmp_check_r addr len c = true

pub pmp_check_w : ℕ → ℕ → Rvcsr → Bool
pmp_check_w addr len c = true

pub pmp_check_x : ℕ → ℕ → Rvcsr → Bool
pmp_check_x addr len c = true
