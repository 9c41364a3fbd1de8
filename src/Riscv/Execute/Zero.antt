-- ===== src/Riscv/Execute/Zero.antt =====
-- That an instruction as execute.cpp runs it, from its fetch to its trap, writes neither x0 nor the running
-- state of the core.
use Prim.{Unit}
use kxemu.Base.Shared.{
  ℕ, ◌<◌, ◌≡◌, refl, arith, bit_and, true, false, ◌==◌, List, Bool-cases, Option-cases, inl, inr,
}
use kxemu.Base.Word.{add64}
use kxemu.Riscv.Core.{
  RvCore, M, Result, ok, trap, panic, undefined, set_priv_mode, vm_translate, tlb_fence,
}
use kxemu.Riscv.Decode.{DecodeInfo}
use kxemu.Riscv.Decode.Ranges.{InstType, decode_insttype, decode_insttype_range, sets_rd}
use kxemu.Riscv.Memory.{memory_fetch}
use kxemu.Riscv.Memory.Fetch.{memory_fetch_keeps_registers}
use kxemu.Riscv.Trap.{enter_trap, enter_trap_s, enter_trap_m, do_invalid_inst}
use kxemu.Riscv.Inst.Exec.{Inst}
use kxemu.Riscv.Inst.Zero.{
  IsAlike, IsAlike-refl, IsAlike-trans, IsSame-IsAlike, KeepsZero, settle, exec-KeepsZero,
}
use kxemu.Riscv.Dispatch.{decode}
use kxemu.Riscv.Dispatch.Rows.{Group, Target, typed, plain, outside, invalid, Outside}
use kxemu.Riscv.Dispatch.Base.{base_table}
use kxemu.Riscv.Dispatch.Compressed.{compressed_table}
use kxemu.Riscv.Execute.Rd.{
  uses_rd, unset-KeepsZero, is_sound, tables_sound, table_sound, decode_sound, and_left, and_right,
}
use kxemu.Riscv.Execute.{run_target, dispatch, run_fetched, try_execute, catch, execute}

rd_set :
    (t : InstType) (inst pc : ℕ) (d : DecodeInfo)
    → sets_rd t ≡ true
    → 0 < (decode_insttype t inst pc d).rd
rd_set t inst pc d h = let r = (decode_insttype_range t inst pc d).0 in rw h at r

sound-sets :
    (i : Inst) (t : InstType) → uses_rd i ≡ true → is_sound (typed i t) ≡ true → sets_rd t ≡ true
unfolding is_sound
sound-sets i t u h = ground arith

sound-plain : (i : Inst) → is_sound (plain i) ≡ true → uses_rd i ≡ false
unfolding is_sound
sound-plain i h = ground arith

enter_trap-IsAlike : (code value : ℕ) (core : RvCore) → IsAlike (enter_trap code value core) core
unfolding enter_trap enter_trap_s enter_trap_m set_priv_mode vm_translate tlb_fence
enter_trap-IsAlike code value core = ground arith

invalid-KeepsZero : KeepsZero (do_invalid_inst {A = Unit {0}})
unfolding do_invalid_inst
invalid-KeepsZero core = IsAlike-refl core

caught :
    (r : Result (Unit {0})) (core core' : RvCore)
    → IsAlike core' core
    → IsAlike (catch (r, core')).1 core
unfolding catch
caught (ok a) core core' h = h
caught (trap code value) core core' h = IsAlike-trans (enter_trap-IsAlike code value core') h
caught panic core core' h = h
caught undefined core core' h = h

module _ (d0 : DecodeInfo) (other : Outside → M (Unit {0}))
    (keeps : (o : Outside) → KeepsZero (other o)) where
  run_target-KeepsZero : (t : Target) → is_sound t ≡ true → KeepsZero (run_target d0 other t)
  unfolding run_target
  run_target-KeepsZero (typed i t) h core =
      let d = decode_insttype t core.inst core.pc d0 in
      elim (Bool-cases (uses_rd i)) [
        | inr p ↦ unset-KeepsZero i d p core
        | inl p ↦ exec-KeepsZero i d (rd_set t core.inst core.pc d0 (sound-sets i t p h)) core
      ]
  run_target-KeepsZero (plain i) h core = unset-KeepsZero i d0 (sound-plain i h) core
  run_target-KeepsZero (outside o) h core = keeps o core
  run_target-KeepsZero invalid h core = invalid-KeepsZero core

  dispatch-KeepsZero :
      (groups : List Group) → table_sound groups ≡ true → KeepsZero (dispatch d0 other groups)
  unfolding dispatch
  dispatch-KeepsZero groups h core = elim (Option-cases (decode groups core.inst)) [
    | inl p ↦ rw (p, dispatch) (invalid-KeepsZero core)
    | inr (t, p) ↦
        rw (p, dispatch) (run_target-KeepsZero t (decode_sound core.inst groups t h p) core)
  ]

  run_fetched-KeepsZero : KeepsZero (run_fetched d0 other)
  unfolding run_fetched
  run_fetched-KeepsZero core = elim (Bool-cases (bit_and core.inst 3 == 3)) [
    | inl p ↦ rw p (
        IsAlike-trans
          (dispatch-KeepsZero base_table
            (and_left (table_sound base_table) (table_sound compressed_table) tables_sound)
            (record core { npc = add64 core.pc 4 }))
          (record { zero = refl; state = refl }))
    | inr p ↦ rw p (
        IsAlike-trans
          (dispatch-KeepsZero compressed_table
            (and_right (table_sound base_table) (table_sound compressed_table) tables_sound)
            (record core { npc = add64 core.pc 2; inst = bit_and core.inst 0xffff }))
          (record { zero = refl; state = refl }))
  ]

  try_execute-KeepsZero : KeepsZero (try_execute d0 other)
  unfolding try_execute
  try_execute-KeepsZero core = elim (Bool-cases (bit_and core.pc 1 == 0)) [
    | inl p ↦ rw p (
        settle (λ _. run_fetched d0 other) (memory_fetch core).0 core (memory_fetch core).1
          (λ _. run_fetched-KeepsZero) (IsSame-IsAlike (memory_fetch_keeps_registers core)))
    | inr p ↦ rw p (IsAlike-refl core)
  ]

  pub execute-KeepsZero : (core : RvCore) → IsAlike (execute d0 other core).1 core
  unfolding execute
  execute-KeepsZero core =
      caught (try_execute d0 other core).0 core (try_execute d0 other core).1
        (try_execute-KeepsZero core)
