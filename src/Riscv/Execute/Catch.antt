-- ===== src/Riscv/Execute/Catch.antt =====
-- What execute of execute.cpp makes of an instruction that traps.
use Prim.{Unit, tt}
use kxemu.Base.Shared.{
  ℕ, ◌≡◌, ◌≢◌, refl, ap, ◌∙◌, arith, bit_and, true, false, ◌==◌, if◌then◌else◌, List, none,
  Bool-cases, inl, inr,
}
use kxemu.Base.Word.{add64}
use kxemu.Riscv.Def
use kxemu.Riscv.Def.{machine}
use kxemu.Riscv.Core.{RvCore, M, Result, ok, trap, panic, undefined, bind-ok}
use kxemu.Riscv.Decode.{DecodeInfo}
use kxemu.Riscv.Memory.{memory_fetch}
use kxemu.Riscv.Trap.{enter_trap, do_invalid_inst}
use kxemu.Riscv.Dispatch.{decode}
use kxemu.Riscv.Dispatch.Rows.{Group, Outside}
use kxemu.Riscv.Dispatch.Base.{base_table}
use kxemu.Riscv.Dispatch.Compressed.{compressed_table}
use kxemu.Riscv.Execute.{dispatch, run_fetched, try_execute, catch, execute}

catch-ne-trap : (r : Result (Unit {0}) × RvCore) (code value : ℕ) → (catch r).0 ≢ trap code value
unfolding catch
catch-ne-trap (ok a, core) code value h = cc
catch-ne-trap (trap c v, core) code value h = cc
catch-ne-trap (panic, core) code value h = cc
catch-ne-trap (undefined, core) code value h = cc

dispatch-invalid :
    (d0 : DecodeInfo) (other : Outside → M (Unit {0})) (groups : List Group) (core : RvCore)
    → decode groups core.inst ≡ none
    → dispatch d0 other groups core ≡ (trap Def.illegal_inst core.inst, core)
unfolding dispatch do_invalid_inst
dispatch-invalid d0 other groups core h = rw (h, dispatch) refl

-- The state in which an instruction runs: its word is cut to 16 bits unless the two lowest are set.
abbrev pub fetched : ℕ → RvCore → RvCore
fetched w core =
    if bit_and w 3 == 3
    then record core { inst = w; npc = add64 core.pc 4 }
    else record core { inst = bit_and w 0xffff; npc = add64 core.pc 2 }

-- The table for a word.
abbrev pub table_of : ℕ → List Group
table_of w = if bit_and w 3 == 3 then base_table else compressed_table

run_fetched-invalid :
    (d0 : DecodeInfo) (other : Outside → M (Unit {0})) (core : RvCore)
    → decode (table_of core.inst) (fetched core.inst core).inst ≡ none
    → run_fetched d0 other core
      ≡ (trap Def.illegal_inst (fetched core.inst core).inst, fetched core.inst core)
unfolding run_fetched
run_fetched-invalid d0 other core h = elim (Bool-cases (bit_and core.inst 3 == 3)) [
  | inl p ↦
      rw p
        (dispatch-invalid d0 other base_table (record core { npc = add64 core.pc 4 }) (rw p at h))
  | inr p ↦ rw p (
      dispatch-invalid d0 other compressed_table
        (record core { npc = add64 core.pc 2; inst = bit_and core.inst 0xffff }) (rw p at h))
]

fetch-run :
    (d0 : DecodeInfo) (other : Outside → M (Unit {0})) (core core' : RvCore) (n : Unit {0})
    → bit_and core.pc 1 ≡ 0
    → memory_fetch core ≡ (ok n, core')
    → execute d0 other core ≡ catch (run_fetched d0 other core')
unfolding execute try_execute
fetch-run d0 other core core' n even h =
    let test : (bit_and core.pc 1 == 0) ≡ true = ground arith in
    ap catch (rw test (bind-ok memory_fetch (λ _. run_fetched d0 other) n core core' h))

-- Once a word has been fetched from an even program counter that its decoding table has no row for, execute traps: the core enters
-- the handler of an illegal instruction with the word, its low half for a compressed one, as the value.
pub execute-undecoded :
    (d0 : DecodeInfo) (other : Outside → M (Unit {0})) (core core' : RvCore) (n : Unit {0})
    → bit_and core.pc 1 ≡ 0
    → memory_fetch core ≡ (ok n, core')
    → decode (table_of core'.inst) (fetched core'.inst core').inst ≡ none
    → execute d0 other core ≡ (
      ok tt,
      enter_trap Def.illegal_inst (fetched core'.inst core').inst (fetched core'.inst core'),
    )
unfolding catch
execute-undecoded d0 other core core' n even f h =
    fetch-run d0 other core core' n even f ∙ ap catch (run_fetched-invalid d0 other core' h)

-- execute at an odd program counter enters the handler of a misaligned instruction address, whatever the
-- memory holds.
execute-misaligned :
    (d0 : DecodeInfo) (other : Outside → M (Unit {0})) (core : RvCore)
    → bit_and core.pc 1 ≡ 1
    → execute d0 other core ≡ (ok tt, enter_trap Def.inst_addr_misaligned core.pc core)
unfolding execute try_execute catch
execute-misaligned d0 other core odd =
    let test : (bit_and core.pc 1 == 0) ≡ false = ground arith in rw test refl
