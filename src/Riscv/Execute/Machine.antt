-- ===== src/Riscv/Execute/Machine.antt =====
-- step, run_step, update_device and run of src/cpu/riscv/execute.cpp, for a core with its interrupt
-- controllers. What the hosts answer in one turn of the loops is a `Tick`.
use Prim.{Unit}
use mathlib.Core.List.{reverse}
use kxemu.Base.Shared.{
  ℕ, ◌+◌, bit_and, Bool, ◌==◌, if◌then◌else◌, List, [], ◌∷◌, Option, none, some,
}
use kxemu.Base.Word.{u32}
use kxemu.Device.Uart.{Poll}
use kxemu.Device.Bus
use kxemu.Riscv.Core.{RvCore, running, breakpoint, M, ok, priv_mode}
use kxemu.Riscv.Decode.{DecodeInfo}
use kxemu.Riscv.Trap.{scan_interrupt}
use kxemu.Riscv.Signal.{deliver}
use kxemu.Riscv.Plic
use kxemu.Riscv.Plic.{Plic}
use kxemu.Riscv.Aclint
use kxemu.Riscv.Aclint.{Aclint}
use kxemu.Riscv.Dispatch.Rows.{Outside}
use kxemu.Riscv.Execute.{execute}

-- What the devices are polled with, the two clocks, and whether the lock on the devices is free.
pub record Tick : Type 0 where
  pub polls : List Poll
  pub now : ℕ
  pub clock : ℕ
  pub granted : Bool

pub record Machine : Type 0 where
  pub core : RvCore
  pub plic : Plic
  pub aclint : Aclint

-- The calls of register_stimer that the core has made, in their order; `none` is PANIC.
unfoldable pub register_stimers : ℕ → ℕ → List (ℕ × ℕ) → Aclint → Option Aclint
register_stimers now clock [] aclint = some aclint
register_stimers now clock ((i, stimecmp) ∷ calls) aclint =
    let rest : Aclint → Option Aclint = λ a. register_stimers now clock calls a in
    elim (Aclint.register_stimer now clock i stimecmp aclint) [ none ↦ none | some a ↦ rest a ]

-- execute, with the calls it makes of the timer; `none` is the end of the program or undefined.
module _ (d0 : DecodeInfo) (other : Outside → M (Unit {0})) where
  unfoldable pub execute_on : Tick → Machine → Option Machine
  unfolding register_stimers execute
  execute_on tick m =
      let (r, core') = execute d0 other m.core in
      let aclint' = register_stimers tick.now tick.clock (reverse core'.stimers) m.aclint in
      let m' : Aclint → Machine =
        λ a. record m { core = record core' { stimers = [] }; aclint = a } in
      elim r [ ok _ ↦ elim aclint' [ none ↦ none | some a ↦ some (m' a) ] | _ ↦ none ]

-- `bus->update()` polls the devices, the ACLINT among them; then the PLIC scans.
unfoldable pub update_all : Tick → Machine → Option Machine
update_all tick m =
    let id = m.core.core_id in
    let polled = record (Aclint.update_core id m.aclint m.core) {
      bus = Bus.update tick.polls m.core.bus;
    } in
    elim (Plic.scan_and_set_interrupt id (priv_mode polled) m.plic polled.bus) [
      | none ↦ none
      | some (plic', bus', signal) ↦ some (record {
        core = deliver signal id (record polled { bus = bus' });
        plic = plic';
        aclint = Aclint.update m.aclint;
      })
    ]

-- update_device; without the lock it does nothing.
unfoldable pub update_device : Tick → Machine → Option Machine
unfolding update_all
update_device tick m = if tick.granted then update_all tick m else some m

unfoldable pub scan : Machine → Machine
scan m = record m { core = (scan_interrupt m.core).1 }

-- `pc = npc`
unfoldable pub advance : Machine → Machine
advance m = record m { core = record (m.core) { pc = m.core.npc } }

module _ (d0 : DecodeInfo) (other : Outside → M (Unit {0})) where
  -- The counter goes by reference.
  unfoldable pub run_step : Tick → ℕ → Machine → Option (ℕ × Machine)
  unfolding execute_on update_device scan advance
  run_step tick counter m = elim (execute_on d0 other tick m) [
    | none ↦ none
    | some m1 ↦
        if bit_and counter 0x1000 == 0
        then some (u32 (counter + 1), advance m1)
        else elim (update_device tick m1) [ none ↦ none | some m2 ↦ some (1, advance (scan m2)) ]
  ]

  unfoldable pub step : Tick → Machine → Option Machine
  unfolding execute_on update_all scan advance
  step tick m =
      let resumed : Machine = elim (m.core.state) [
        | breakpoint ↦ record m { core = record (m.core) { state = running } }
        | _ ↦ m
      ] in
      let stepped : Option Machine = elim (update_all tick resumed) [
        | none ↦ none
        | some m1 ↦ elim (execute_on d0 other tick (scan m1)) [
          | none ↦ none
          | some m2 ↦ some (advance m2)
        ]
      ] in
      elim (resumed.core.state) [ running ↦ stepped | _ ↦ some resumed ]
