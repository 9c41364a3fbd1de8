-- ===== src/Riscv/Execute/Run.antt =====
-- run of src/cpu/riscv/execute.cpp. A turn of a loop takes a `Tick`; a loop that has none left is still
-- running.
use Prim.{Unit}
use kxemu.Base.Shared.{ℕ, Bool, true, false, ◌==◌, if◌then◌else◌, List, [], ◌∷◌, Option, none, some}
use kxemu.Riscv.Core.{State, running, breakpoint, M}
use kxemu.Riscv.Decode.{DecodeInfo}
use kxemu.Riscv.Dispatch.Rows.{Outside}
use kxemu.Riscv.Execute.Machine.{Tick, Machine, run_step}

unfoldable pub contains : ℕ → List ℕ → Bool
contains n [] = false
contains n (m ∷ ms) = if n == m then true else contains n ms

unfoldable pub set_state : State → Machine → Machine
set_state state m = record m { core = record (m.core) { state = state } }

-- What the core is left with at a breakpoint.
unfoldable pub stop : Machine → Machine
stop m = record m {
  core = record (m.core) { halt_code = 0; halt_pc = m.core.pc; state = breakpoint };
}

module _ (d0 : DecodeInfo) (other : Outside → M (Unit {0})) where
  -- The loop for `n == 0`.
  unfoldable pub run_free : List Tick → ℕ → Machine → Option (ℕ × Machine)
  run_free [] counter m = some (counter, m)
  run_free (tick ∷ ticks) counter m =
      let turn : Option (ℕ × Machine) = elim (run_step d0 other tick counter m) [
        | none ↦ none
        | some (counter', m') ↦ run_free ticks counter' m'
      ] in
      elim (m.core.state) [ running ↦ turn | _ ↦ some (counter, m) ]

  -- The loop that tests the breakpoints.
  unfoldable pub run_to : List ℕ → List Tick → ℕ → Machine → Option (ℕ × Machine)
  unfolding contains stop
  run_to breakpoints [] counter m = some (counter, m)
  run_to breakpoints (tick ∷ ticks) counter m =
      let turn : Option (ℕ × Machine) = elim (run_step d0 other tick counter m) [
        | none ↦ none
        | some (counter', m') ↦ run_to breakpoints ticks counter' m'
      ] in
      elim (m.core.state) [
        | running ↦ if contains m.core.pc breakpoints then some (counter, stop m) else turn
        | _ ↦ some (counter, m)
      ]

  -- run, with its turns; the first instruction runs without the test.
  unfoldable pub run : List ℕ → List Tick → Machine → Option (ℕ × Machine)
  unfolding run_free run_to set_state
  run [] ticks m = run_free ticks 0 (set_state running m)
  run (b ∷ bs) [] m = some (0, set_state running m)
  run (b ∷ bs) (tick ∷ ticks) m = elim (run_step d0 other tick 0 (set_state running m)) [
    | none ↦ none
    | some (counter, m') ↦ run_to (b ∷ bs) ticks counter m'
  ]
