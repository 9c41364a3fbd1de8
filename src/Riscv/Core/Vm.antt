-- ===== src/Riscv/Core/Vm.antt =====
-- update_vm_translate of memory.cpp ends in std::unreachable for a mode that satp should never hold.
use kxemu.Base.Shared.{ℕ, ◌≡◌, ◌≢◌, arith, true}
use kxemu.Riscv.Def
use kxemu.Riscv.Field.Satp
use kxemu.Riscv.Csr
use kxemu.Riscv.Csr.{Rvcsr, WriteFunc, Callback}
use kxemu.Riscv.Csr.Reach.{write_csr-satp_supported}
use kxemu.Riscv.Core.{
  RvCore, unreachable, translate_of, vm_translate, tlb_fence, set_priv_mode, get_csr, write_csr,
  run_callback, refresh_mstatus, stimecmp_written, clear_interrupt,
}

-- satp holds a supported mode, and the translation function is one of the four.
pub record IsTranslatable (core : RvCore) : Type 0 where
  pub supported : Satp.is_valid_mode (Satp.mode (get_csr core Def.satp)) ≡ true
  pub selected : core.vaddr_translate_func ≢ unreachable

translate_of-reachable : (m : ℕ) → Satp.is_valid_mode m ≡ true → translate_of m ≢ unreachable
unfolding translate_of
translate_of-reachable m h = ground arith

-- set_priv_mode, to any mode, keeps it.
set_priv_mode-IsTranslatable :
    (mode : ℕ) (core : RvCore) → IsTranslatable core → IsTranslatable (set_priv_mode mode core)
unfolding set_priv_mode vm_translate tlb_fence
set_priv_mode-IsTranslatable mode core v = record {
  supported = v.supported;
  selected = ground (arith, translate_of-reachable (Satp.mode (get_csr core Def.satp)) v.supported);
}

vm_translate-IsTranslatable :
    (core : RvCore) → IsTranslatable core → IsTranslatable (vm_translate core)
unfolding vm_translate tlb_fence
vm_translate-IsTranslatable core v = record {
  supported = v.supported;
  selected = ground (arith, translate_of-reachable (Satp.mode (get_csr core Def.satp)) v.supported);
}

run_callback-IsTranslatable :
    (callback : Callback) (core : RvCore)
    → IsTranslatable core
    → IsTranslatable (run_callback callback core)
unfolding run_callback refresh_mstatus stimecmp_written clear_interrupt
run_callback-IsTranslatable Callback.no_callback core v = v
run_callback-IsTranslatable Callback.update_stimecmp core v = record {
  supported = v.supported;
  selected = v.selected;
}
run_callback-IsTranslatable Callback.update_vm_translate core v = vm_translate-IsTranslatable core v
run_callback-IsTranslatable Callback.update_mstatus core v = record {
  supported = v.supported;
  selected = v.selected;
}

-- Every write through RVCore::write_csr, whatever the address and the value, and every change of
-- mode keep it: the switch of update_vm_translate never reaches std::unreachable.
pub write_csr-IsTranslatable :
    (a v mode : ℕ) (core : RvCore)
    → IsTranslatable core
    → IsTranslatable (write_csr a v core).1 × IsTranslatable (set_priv_mode mode core)
unfolding write_csr
write_csr-IsTranslatable a v mode core t = (
  run_callback-IsTranslatable ((Csr.write_csr a v core.csr).2) _ (record {
    supported = write_csr-satp_supported a v core.csr t.supported;
    selected = t.selected;
  }),
  set_priv_mode-IsTranslatable mode core t,
)
