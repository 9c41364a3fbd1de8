-- ===== src/Riscv/Execute/Tests.antt =====
-- Instructions of a core as they are fetched and run, and each theorem on them at one.
use Prim.{Unit, tt}
use kxemu.Base.Shared.{◌≡◌, refl, true, false, [], ◌∷◌, none}
use kxemu.Device.Bus
use kxemu.Device.Bus.{match_memory}
use kxemu.Device.Bus.Block
use kxemu.Device.Bus.Block.{MemoryBlock}
use kxemu.Riscv.Def
use kxemu.Riscv.Core.{RvCore, M, ok, running, breakpoint}
use kxemu.Riscv.Core.Sample.{core_with}
use kxemu.Riscv.Decode.{DecodeInfo}
use kxemu.Riscv.Memory.{memory_fetch, bus_read, pm_fetch}
use kxemu.Riscv.Trap.{enter_trap}
use kxemu.Riscv.Aclint.{fresh}
use kxemu.Riscv.Plic
use kxemu.Riscv.Plic.{Plic}
use kxemu.Riscv.Dispatch.{decode, find_case}
use kxemu.Riscv.Dispatch.Rows.{Outside}
use kxemu.Riscv.Execute.{execute}
use kxemu.Riscv.Execute.Zero
use kxemu.Riscv.Execute.Catch.{fetched, table_of, execute-undecoded}
use kxemu.Riscv.Execute.Machine.{Tick, Machine}

abbrev blank : DecodeInfo
blank = record { rd = 0; rs1 = 0; rs2 = 0; flag = 0; csr = 0; imm = 0; npc = 0; rs3 = 0 }

-- Instruction functions outside the model that do nothing.
abbrev idle : Outside → M (Unit {0})
idle o core = (ok tt, core)

-- A page of ones, which are no instruction.
abbrev core : RvCore
core = record (core_with 3 (λ a. 0)) {
  bus = record {
    memory_maps = record { start = 0x8000_0000; end = 0x8000_1000; contents = λ i. 255 } ∷ [];
    mmio_maps = [];
  };
}

abbrev loaded : RvCore
loaded = record core { inst = 0xffff_ffff }

ones_fetched : memory_fetch core ≡ (ok tt, loaded)
unfolding memory_fetch pm_fetch bus_read Bus.read match_memory Block.in_range Block.read
    Block.is_width Block.is_inside Block.read_le
ones_fetched = refl

ones_invalid : decode (table_of loaded.inst) (fetched loaded.inst loaded).inst ≡ none
unfolding decode find_case
ones_invalid = refl

execute-undecoded_example : execute blank idle core ≡ (
  ok tt,
  enter_trap Def.illegal_inst (fetched loaded.inst loaded).inst (fetched loaded.inst loaded),
)
execute-undecoded_example =
    execute-undecoded blank idle core loaded tt refl ones_fetched ones_invalid

abbrev machine : Machine
machine = record {
  core = core;
  plic = Plic.init 1;
  aclint = record {
    core_count = 1;
    core_objects = λ i. fresh;
    timer_running = false;
    boot_time = 0;
    task_timer = record { tasks = []; counter = 0; removed_tasks = []; running = true };
  };
}

abbrev tick : Tick
tick = record { polls = []; now = 0; clock = 0; granted = true }

-- The trap goes to address 0, where a breakpoint stands.
abbrev stopped : Machine
stopped = record machine {
  core =
      record (enter_trap Def.illegal_inst (fetched loaded.inst loaded).inst
        (fetched loaded.inst loaded)) {
          pc = 0;
          halt_pc = 0;
          halt_code = 0;
          state = breakpoint;
          stimers = [];
        };
}
