-- ===== src/Riscv/Csr/Reach.antt =====
-- Which registers of csr.cpp a write can reach: only one to satp changes satp.
use kxemu.Base.Shared.{
  ℕ, ◌≡◌, refl, sym, ap, ◌∙◌, arith, Bool, true, false, ◌==◌, ◌&&◌, if◌then◌else◌, Bool-cases,
  Option-cases, inl, inr, List, [], ◌∷◌, some,
}
use kxemu.Riscv.Def
use kxemu.Riscv.Field.Satp
use kxemu.Riscv.Csr.{
  Rvcsr, Entry, WriteFunc, csr_table, add_csrs, find_csr, write_csr, call_write, reload_pmpcfg,
}
use kxemu.Riscv.Csr.Views.{write_csr-satp_mode}

is_write_satp : WriteFunc → Bool
is_write_satp WriteFunc.write_satp = true
is_write_satp _ = false

-- An entry with write_satp is that of satp.
only_satp : List Entry → Bool
only_satp [] = true
only_satp (e ∷ es) =
    let rest = only_satp es in
    if is_write_satp e.write_func then e.addr == Def.satp && rest else rest

only_satp-csr_table : only_satp csr_table ≡ true
unfolding only_satp csr_table add_csrs is_write_satp
only_satp-csr_table = refl

found_satp :
    (a : ℕ) (es : List Entry) (e : Entry)
    → find_csr a es ≡ some e
    → only_satp es ≡ true
    → (a == Def.satp) ≡ false
    → is_write_satp e.write_func ≡ false
unfolding find_csr only_satp
found_satp a [] e f t n = absurd cc
found_satp a (d ∷ es) e f t n = elim (Bool-cases (d.addr == a)) [
  | inl p ↦
      let same : d ≡ e = cc in
      let fits : is_write_satp d.write_func ≡ false = ground arith in
      sym (ap (λ x. is_write_satp x.write_func) same) ∙ fits
  | inr p ↦ found_satp a es e (ground arith) (ground arith) n
]

call_write-satp :
    (w : WriteFunc) (a v : ℕ) (c : Rvcsr)
    → is_write_satp w ≡ false
    → (a == Def.satp) ≡ false
    → (call_write w a v c).value Def.satp ≡ c.value Def.satp
unfolding call_write is_write_satp reload_pmpcfg
call_write-satp WriteFunc.plain a v c p n = ground arith
call_write-satp WriteFunc.write_mip a v c p n = refl
call_write-satp WriteFunc.write_pmpcfg a v c p n = ground arith
call_write-satp WriteFunc.write_pmpaddr a v c p n = ground arith
call_write-satp WriteFunc.write_sstatus a v c p n = refl
call_write-satp WriteFunc.write_sie a v c p n = refl
call_write-satp WriteFunc.write_sip a v c p n = refl
call_write-satp WriteFunc.write_satp a v c p n = absurd cc
call_write-satp WriteFunc.write_fflags a v c p n = refl
call_write-satp WriteFunc.write_frm a v c p n = refl

write_csr-satp_kept :
    (a v : ℕ) (c : Rvcsr)
    → (a == Def.satp) ≡ false
    → (write_csr a v c).1.value Def.satp ≡ c.value Def.satp
unfolding write_csr
write_csr-satp_kept a v c n = elim (Option-cases (find_csr a csr_table)) [
  | inl p ↦ rw (p, write_csr) refl
  | inr (e, p) ↦
      rw (p, write_csr)
        (call_write-satp e.write_func a v c (found_satp a csr_table e p only_satp-csr_table n) n)
]

-- Every write keeps the mode of satp supported.
pub write_csr-satp_supported :
    (a v : ℕ) (c : Rvcsr)
    → Satp.is_valid_mode (Satp.mode (c.value Def.satp)) ≡ true
    → Satp.is_valid_mode (Satp.mode ((write_csr a v c).1.value Def.satp)) ≡ true
write_csr-satp_supported a v c h = elim (Bool-cases (a == Def.satp)) [
  | inl p ↦ let e : a ≡ Def.satp = ground arith in rw e (write_csr-satp_mode v c)
  | inr p ↦ rw (write_csr-satp_kept a v c p) h
]
