-- ===== src/Riscv/Execute/Steps.antt =====
-- That one turn of the loops of execute.cpp leaves the running state of the core.
use Prim.{Unit}
use mathlib.Core.List.{reverse}
use kxemu.Base.Shared.{
  ℕ, ◌+◌, ◌≡◌, refl, ap, sym, ◌∙◌, arith, bit_and, ◌==◌, [], Option, none, some, Bool-cases,
  Option-cases, inl, inr,
}
use kxemu.Riscv.Def
use kxemu.Riscv.Csr
use kxemu.Riscv.Field.Other.{interrupt_cause}
use kxemu.Riscv.Core.{
  RvCore, M, Result, ok, trap, panic, undefined, set_priv_mode, vm_translate, tlb_fence,
  set_interrupt, clear_interrupt, get_csr, priv_mode,
}
use kxemu.Base.Word.{u32}
use kxemu.Riscv.Decode.{DecodeInfo}
use kxemu.Riscv.Trap.{scan_interrupt, interrupt_m, interrupt_s, select_m, select_s, status_s}
use kxemu.Riscv.Signal.{Signal, deliver, quiet, raise, lower}
use kxemu.Device.Bus
use kxemu.Riscv.Plic
use kxemu.Riscv.Aclint
use kxemu.Riscv.Aclint.{Aclint, update_core}
use kxemu.Riscv.Dispatch.Rows.{Outside}
use kxemu.Riscv.Inst.Zero.{KeepsZero, write_csr-KeepsZero}
use kxemu.Riscv.Execute.{execute}
use kxemu.Riscv.Execute.Zero.{execute-KeepsZero}
use kxemu.Riscv.Execute.Machine.{
  Tick, Machine, register_stimers, execute_on, update_all, update_device, scan, advance, run_step,
}

interrupt_m-state : (code : ℕ) (core : RvCore) → (interrupt_m code core).state ≡ core.state
unfolding interrupt_m set_priv_mode vm_translate tlb_fence
interrupt_m-state code core = ground arith

interrupt_s-state : (code : ℕ) (core : RvCore) → (interrupt_s code core).state ≡ core.state
unfolding interrupt_s set_priv_mode vm_translate tlb_fence
interrupt_s-state code core =
    let csr3 =
      (Csr.write_csr Def.stval 0
        (Csr.write_csr Def.scause (interrupt_cause code)
          (Csr.write_csr Def.sepc core.npc core.csr).1).1).1 in
    let core1 = record core { csr = csr3 } in
    (write_csr-KeepsZero Def.mstatus (status_s (priv_mode core1) (Csr.read_csr Def.mstatus csr3).1)
      core1).state

scan_interrupt-state : (core : RvCore) → (scan_interrupt core).1.state ≡ core.state
unfolding scan_interrupt
scan_interrupt-state core = elim (Bool-cases (get_csr core Def.mip == 0)) [
  | inl p ↦ rw p refl
  | inr p ↦ rw p (elim (Option-cases (select_m core)) [
    | inr (code, q) ↦ rw (q, scan_interrupt) (interrupt_m-state code core)
    | inl q ↦
        rw (q, scan_interrupt)
          (elim (Option-cases (select_s core)) [
            | inr (code, r) ↦ rw (r, scan_interrupt) (interrupt_s-state code core)
            | inl r ↦ rw (r, scan_interrupt) refl
          ])
  ])
]

deliver-state :
    (signal : Signal) (i : ℕ) (core : RvCore) → (deliver signal i core).state ≡ core.state
unfolding deliver set_interrupt clear_interrupt
deliver-state quiet i core = refl
deliver-state (raise target code) i core = ground arith
deliver-state (lower target code) i core = ground arith

update_core-state : (i : ℕ) (a : Aclint) (core : RvCore) → (update_core i a core).state ≡ core.state
unfolding update_core set_interrupt
update_core-state i a core = ground arith

some-core :
    (a b : Machine) → ◌≡◌ {A = Option Machine} (some a) (some b) → b.core.state ≡ a.core.state
some-core a b h = sym (ap (λ o. elim o [ none ↦ a.core.state | some q ↦ q.core.state ]) h)

pub paired :
    (i j : ℕ) (a b : Machine)
    → ◌≡◌ {A = Option (ℕ × Machine)} (some (i, a)) (some (j, b))
    → b.core.state ≡ a.core.state
paired i j a b h = sym (ap (λ o. elim o [ none ↦ a.core.state | some q ↦ q.1.core.state ]) h)

outcome :
    (r : Result (Unit {0})) (o : Option Aclint) (core : RvCore) (m m' : Machine)
    → (elim r [
      | ok _ ↦ elim o [
        | none ↦ none
        | some a ↦ some (record m { core = record core { stimers = [] }; aclint = a })
      ]
      | _ ↦ none
    ])
      ≡ some m'
    → m'.core.state ≡ core.state
outcome (ok u) none core m m' h = cc
outcome (ok u) (some a) core m m' h =
    some-core (record m { core = record core { stimers = [] }; aclint = a }) m' h
outcome (trap code value) o core m m' h = cc
outcome panic o core m m' h = cc
outcome undefined o core m m' h = cc

update_all-state :
    (tick : Tick) (m m' : Machine) → update_all tick m ≡ some m' → m'.core.state ≡ m.core.state
unfolding update_all
update_all-state tick m m' h =
    let id = m.core.core_id in
    let polled = record (Aclint.update_core id m.aclint m.core) {
      bus = Bus.update tick.polls m.core.bus;
    } in
    elim (Option-cases (Plic.scan_and_set_interrupt id (priv_mode polled) m.plic polled.bus)) [
      | inl p ↦ absurd (let e = rw (p, update_all) at h in cc)
      | inr ((plic', bus', signal), p) ↦
          let q : some (record {
            core = deliver signal id (record polled { bus = bus' });
            plic = plic';
            aclint = Aclint.update m.aclint;
          })
              ≡ some m' =
            sym (rw (p, update_all) refl) ∙ h in
          some-core
            (record {
              core = deliver signal id (record polled { bus = bus' });
              plic = plic';
              aclint = Aclint.update m.aclint;
            })
            m' q
          ∙ deliver-state signal id (record polled { bus = bus' })
          ∙ update_core-state id m.aclint m.core
    ]

update_device-state :
    (tick : Tick) (m m' : Machine) → update_device tick m ≡ some m' → m'.core.state ≡ m.core.state
unfolding update_device
update_device-state tick m m' h = elim (Bool-cases tick.granted) [
  | inl p ↦ update_all-state tick m m' (sym (rw p refl) ∙ h)
  | inr p ↦ some-core m m' (sym (rw p refl) ∙ h)
]

module _ (d0 : DecodeInfo) (other : Outside → M (Unit {0}))
    (keeps : (o : Outside) → KeepsZero (other o)) where
  execute_on-state :
      (tick : Tick) (m m' : Machine)
      → execute_on d0 other tick m ≡ some m'
      → m'.core.state ≡ m.core.state
  unfolding execute_on
  execute_on-state tick m m' h =
      let done = execute d0 other m.core in
      outcome done.0 (register_stimers tick.now tick.clock (reverse done.1.stimers) m.aclint) done.1
        m m' h
      ∙ (execute-KeepsZero d0 other keeps m.core).state

  pub run_step-state :
      (tick : Tick) (counter counter' : ℕ) (m m' : Machine)
      → run_step d0 other tick counter m ≡ some (counter', m')
      → m'.core.state ≡ m.core.state
  unfolding run_step
  run_step-state tick counter counter' m m' h = elim (Option-cases (execute_on d0 other tick m)) [
    | inl p ↦ absurd (let e = rw (p, run_step) at h in cc)
    | inr (m1, p) ↦ elim (Bool-cases (bit_and counter 0x1000 == 0)) [
      | inl q ↦
          paired (u32 (counter + 1)) counter' (advance m1) m'
            (sym (rw (p, run_step) (rw q refl)) ∙ h)
          ∙ execute_on-state tick m m1 p
      | inr q ↦ elim (Option-cases (update_device tick m1)) [
        | inl r ↦ absurd (
            let e = rw (p, run_step) at h in
            let f = rw q at e in let g = rw (r, run_step) at f in cc)
        | inr (m2, r) ↦
            paired 1 counter' (advance (scan m2)) m'
              (sym (rw (p, run_step) (rw q (rw (r, run_step) refl))) ∙ h)
            ∙ scan_interrupt-state m2.core
            ∙ update_device-state tick m1 m2 r
            ∙ execute_on-state tick m m1 p
      ]
    ]
  ]
