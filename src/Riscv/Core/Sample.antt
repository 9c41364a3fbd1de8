-- ===== src/Riscv/Core/Sample.antt =====
-- A core for the tests: hart 1 in M-mode after reset, with no memory.
use kxemu.Base.Shared.{ℕ, ◌*◌, true, false, none, []}
use kxemu.Riscv.Core.{RvCore, running, bare}

-- `mode` is the privilege mode, and `word a` the value of register `a`.
abbrev pub core_with : ℕ → (ℕ → ℕ) → RvCore
core_with mode word = record {
  core_id = 1;
  state = running;
  halt_pc = 0;
  halt_code = 0;
  inst = 0x73;
  pc = 0x8000_0004;
  npc = 0x8000_0008;
  gpr = λ i. i * 3;
  csr = record { value = word; hart_id = 1; priv_mode = mode; pmp_cfg = []; uptime = 0 };
  mie = true;
  sie = false;
  sum = false;
  page_table_base = 0;
  vaddr_translate_func = bare;
  tlb = λ i. record { paddr = 0; tag = 0; pte_addr = 0; valid = false; flag = 0 };
  reserved_memory = λ a. none;
  stimers = [];
  bus = record { memory_maps = []; mmio_maps = [] };
}
