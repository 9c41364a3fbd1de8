-- ===== src/Riscv/Def.antt =====
-- The constants of include/cpu/riscv/def.hpp (the 64-bit build).
use kxemu.Base.Shared.{ℕ, ◌*◌, ◌/◌, ◌^◌, bit_and, ◌==◌, Bool}
use kxemu.Base.Word.{u64}

abbrev pub pgbits : ℕ
pgbits = 12

abbrev pub pgsize : ℕ
pgsize = 2 ^ pgbits

-- `enum PrivMode`
abbrev pub machine : ℕ
machine = 3

abbrev pub supervisor : ℕ
supervisor = 1

abbrev pub user : ℕ
user = 0

-- `enum CSRAddr`
abbrev pub mvendorid : ℕ
mvendorid = 0xf11

abbrev pub marchid : ℕ
marchid = 0xf12

abbrev pub mimpid : ℕ
mimpid = 0xf13

abbrev pub mhartid : ℕ
mhartid = 0xf14

abbrev pub mcfgptr : ℕ
mcfgptr = 0xf15

abbrev pub mstatus : ℕ
mstatus = 0x300

abbrev pub misa : ℕ
misa = 0x301

abbrev pub medeleg : ℕ
medeleg = 0x302

abbrev pub mideleg : ℕ
mideleg = 0x303

abbrev pub mie : ℕ
mie = 0x304

abbrev pub mtvec : ℕ
mtvec = 0x305

abbrev pub mcnten : ℕ
mcnten = 0x306

abbrev pub mscratch : ℕ
mscratch = 0x340

abbrev pub mepc : ℕ
mepc = 0x341

abbrev pub mcause : ℕ
mcause = 0x342

abbrev pub mtval : ℕ
mtval = 0x343

abbrev pub mip : ℕ
mip = 0x344

abbrev pub mtinst : ℕ
mtinst = 0x34a

abbrev pub mtval2 : ℕ
mtval2 = 0x34b

abbrev pub menvcfg : ℕ
menvcfg = 0x30a

abbrev pub mseccfg : ℕ
mseccfg = 0x747

abbrev pub pmpcfg0 : ℕ
pmpcfg0 = 0x3a0

abbrev pub pmpaddr0 : ℕ
pmpaddr0 = 0x3b0

abbrev pub sstatus : ℕ
sstatus = 0x100

abbrev pub sie : ℕ
sie = 0x104

abbrev pub stvec : ℕ
stvec = 0x105

abbrev pub scnten : ℕ
scnten = 0x106

abbrev pub sscratch : ℕ
sscratch = 0x140

abbrev pub sepc : ℕ
sepc = 0x141

abbrev pub scause : ℕ
scause = 0x142

abbrev pub stval : ℕ
stval = 0x143

abbrev pub sip : ℕ
sip = 0x144

abbrev pub stinst : ℕ
stinst = 0x14a

abbrev pub stimecmp : ℕ
stimecmp = 0x14d

abbrev pub satp : ℕ
satp = 0x180

abbrev pub fflags : ℕ
fflags = 0x001

abbrev pub frm : ℕ
frm = 0x002

abbrev pub fcsr : ℕ
fcsr = 0x003

abbrev pub cycle : ℕ
cycle = 0xc00

abbrev pub time : ℕ
time = 0xc01

-- `enum InterruptCode`
abbrev pub software_s : ℕ
software_s = 0

abbrev pub software_m : ℕ
software_m = 3

abbrev pub timer_s : ℕ
timer_s = 5

abbrev pub timer_m : ℕ
timer_m = 7

abbrev pub external_s : ℕ
external_s = 9

abbrev pub external_m : ℕ
external_m = 11

-- `enum TrapCode`
abbrev pub inst_addr_misaligned : ℕ
inst_addr_misaligned = 0

abbrev pub inst_access_fault : ℕ
inst_access_fault = 1

abbrev pub illegal_inst : ℕ
illegal_inst = 2

abbrev pub breakpoint : ℕ
breakpoint = 3

abbrev pub load_access_fault : ℕ
load_access_fault = 5

abbrev pub store_access_fault : ℕ
store_access_fault = 7

abbrev pub ecall_u : ℕ
ecall_u = 8

abbrev pub ecall_s : ℕ
ecall_s = 9

abbrev pub ecall_m : ℕ
ecall_m = 11

abbrev pub inst_page_fault : ℕ
inst_page_fault = 12

abbrev pub load_page_fault : ℕ
load_page_fault = 13

abbrev pub store_page_fault : ℕ
store_page_fault = 15

abbrev pub amo_access_misaligned : ℕ
amo_access_misaligned = 6

abbrev pub amo_access_fault : ℕ
amo_access_fault = 7

abbrev pub amo_page_fault : ℕ
amo_page_fault = 15

unfoldable pub csr_read_only : ℕ → Bool
csr_read_only addr = bit_and addr 0b110000000000 == 0b110000000000

abbrev pub realtime_to_mtime : ℕ → ℕ
realtime_to_mtime uptime = uptime / 100

abbrev pub mtime_to_realtime : ℕ → ℕ
mtime_to_realtime mtime = u64 (mtime * 100)

abbrev pub kxemu_vendorid : ℕ
kxemu_vendorid = 0x584b5343

abbrev pub kxemu_archid : ℕ
kxemu_archid = 0x00caffee
