-- ===== src/Riscv/Core/Registers.antt =====
-- get_register and set_register of src/cpu/riscv/core.cpp, by which the debugger names the registers of a
-- core. The loops over the names and the comparisons after them are a search of one table for the first
-- entry with the name.
use Prim.Native.String.{String}
use text.Mathlib.Text.{◌==◌}
use text.Mathlib.TextEquality.{eq_iff}
use kxemu.Base.Shared.{
  ℕ, suc, ◌≡◌, refl, sym, ap, ◌∙◌, arith, Bool, true, false, ◌&&◌, leb, if◌then◌else◌, List, [],
  ◌∷◌, ◌++◌, Option, none, some, Bool-cases, Option-cases, inl, inr,
}
use kxemu.Riscv.Def
use kxemu.Riscv.Core.{RvCore, get_gpr, set_gpr, get_csr, set_csr, priv_mode}

pub data Register : Type 0 where
  gpr csr : ℕ → Register
  pc priv : Register

abbrev gpr_alias : List String
gpr_alias =
    "zero" ∷ "ra" ∷ "sp" ∷ "gp" ∷ "tp" ∷ "t0" ∷ "t1" ∷ "t2" ∷ "s0" ∷ "s1" ∷ "a0" ∷ "a1" ∷ "a2"
    ∷ "a3" ∷ "a4" ∷ "a5" ∷ "a6" ∷ "a7" ∷ "s2" ∷ "s3" ∷ "s4" ∷ "s5" ∷ "s6" ∷ "s7" ∷ "s8" ∷ "s9"
    ∷ "s10" ∷ "s11" ∷ "t3" ∷ "t4" ∷ "t5" ∷ "t6" ∷ []

abbrev gpr_names : List String
gpr_names =
    "x0" ∷ "x1" ∷ "x2" ∷ "x3" ∷ "x4" ∷ "x5" ∷ "x6" ∷ "x7" ∷ "x8" ∷ "x9" ∷ "x10" ∷ "x11" ∷ "x12"
    ∷ "x13" ∷ "x14" ∷ "x15" ∷ "x16" ∷ "x17" ∷ "x18" ∷ "x19" ∷ "x20" ∷ "x21" ∷ "x22" ∷ "x23" ∷ "x24"
    ∷ "x25" ∷ "x26" ∷ "x27" ∷ "x28" ∷ "x29" ∷ "x30" ∷ "x31" ∷ []

-- The names of an array, from register `i` on.
abbrev indexed : ℕ → List String → List (String × Register)
indexed i [] = []
indexed i (name ∷ names) = (name, gpr i) ∷ indexed (suc i) names

-- The loops of set_register start at 1.
abbrev indexed_from_1 : List String → List (String × Register)
indexed_from_1 [] = []
indexed_from_1 (name ∷ names) = indexed 1 names

abbrev readable_csrs : List (String × Register)
readable_csrs =
    ("mstatus", csr Def.mstatus)
    ∷ ("misa", csr Def.misa)
    ∷ ("medeleg", csr Def.medeleg)
    ∷ ("mideleg", csr Def.mideleg)
    ∷ ("mie", csr Def.mie)
    ∷ ("mtvec", csr Def.mtvec)
    ∷ ("mcnten", csr Def.mcnten)
    ∷ ("mscratch", csr Def.mscratch)
    ∷ ("mepc", csr Def.mepc)
    ∷ ("mcause", csr Def.mcause)
    ∷ ("mtval", csr Def.mtval)
    ∷ ("mip", csr Def.mip)
    ∷ ("mtinst", csr Def.mtinst)
    ∷ ("mtval2", csr Def.mtval2)
    ∷ ("pmpcfg0", csr Def.pmpcfg0)
    ∷ ("sstatus", csr Def.sstatus)
    ∷ ("sie", csr Def.sie)
    ∷ ("stvec", csr Def.stvec)
    ∷ ("scnten", csr Def.scnten)
    ∷ ("sscratch", csr Def.sscratch)
    ∷ ("sepc", csr Def.sepc)
    ∷ ("scause", csr Def.scause)
    ∷ ("stval", csr Def.stval)
    ∷ ("sip", csr Def.sip)
    ∷ ("stimecmp", csr Def.stimecmp)
    ∷ ("satp", csr Def.satp)
    ∷ []

abbrev writable_csrs : List (String × Register)
writable_csrs =
    ("mstatus", csr Def.mstatus)
    ∷ ("misa", csr Def.misa)
    ∷ ("medeleg", csr Def.medeleg)
    ∷ ("mideleg", csr Def.mideleg)
    ∷ ("mie", csr Def.mie)
    ∷ ("mtvec", csr Def.mtvec)
    ∷ ("mcnten", csr Def.mcnten)
    ∷ ("mscratch", csr Def.mscratch)
    ∷ ("mepc", csr Def.mepc)
    ∷ ("mcause", csr Def.mcause)
    ∷ ("mtval", csr Def.mtval)
    ∷ ("mip", csr Def.mip)
    ∷ ("mtinst", csr Def.mtinst)
    ∷ ("mtval2", csr Def.mtval2)
    ∷ ("sstatus", csr Def.sstatus)
    ∷ ("sie", csr Def.sie)
    ∷ ("stvec", csr Def.stvec)
    ∷ ("scnten", csr Def.scnten)
    ∷ ("sscratch", csr Def.sscratch)
    ∷ ("sepc", csr Def.sepc)
    ∷ ("scause", csr Def.scause)
    ∷ ("stval", csr Def.stval)
    ∷ ("sip", csr Def.sip)
    ∷ ("stimecmp", csr Def.stimecmp)
    ∷ ("satp", csr Def.satp)
    ∷ []

abbrev pub readable : List (String × Register)
readable = indexed 0 gpr_names ++ indexed 0 gpr_alias ++ ("pc", pc) ∷ ("priv", priv) ∷ readable_csrs

abbrev pub writable : List (String × Register)
writable = indexed_from_1 gpr_names ++ indexed_from_1 gpr_alias ++ ("pc", pc) ∷ writable_csrs

unfoldable pub find_register : String → List (String × Register) → Option Register
find_register name [] = none
find_register name ((s, r) ∷ rest) =
    let later = find_register name rest in if name == s then some r else later

unfoldable pub read_register : Register → RvCore → ℕ
read_register (gpr i) core = get_gpr i core
read_register (csr a) core = get_csr core a
read_register pc core = core.pc
read_register priv core = priv_mode core

-- Nothing is written for `priv`, which no name of `writable` stands for. The callbacks of the CSR are not run.
unfoldable pub write_register : Register → ℕ → RvCore → RvCore
write_register (gpr i) value core = set_gpr i value core
write_register (csr a) value core = set_csr a value core
write_register pc value core = record core { pc = value }
write_register priv value core = core

unfoldable pub get_register : String → RvCore → Option ℕ
unfolding find_register read_register
get_register name core = elim (find_register name readable) [
  | none ↦ none
  | some r ↦ some (read_register r core)
]

unfoldable pub set_register : String → ℕ → RvCore → Bool × RvCore
unfolding find_register write_register
set_register name value core = elim (find_register name writable) [
  | none ↦ (false, core)
  | some r ↦ (true, write_register r value core)
]

same : Register → Register → Bool
same (gpr i) (gpr j) = leb i j && leb j i
same (csr a) (csr b) = leb a b && leb b a
same pc pc = true
same _ _ = false

is_written : Register → Bool
is_written priv = false
is_written _ = true

-- Each entry can be written, and is what `table` has for its name.
agree : List (String × Register) → List (String × Register) → Bool
agree [] table = true
agree ((s, r) ∷ rest) table = elim (find_register s table) [
  | none ↦ false
  | some q ↦ same q r && (is_written r && agree rest table)
]

same_lem : (q r : Register) → same q r ≡ true → q ≡ r
unfolding same
same_lem (gpr i) (gpr j) h = ap gpr (ground arith)
same_lem (csr a) (csr b) h = ap csr (ground arith)
same_lem pc pc h = refl
same_lem (gpr i) (csr a) h = cc
same_lem (gpr i) pc h = cc
same_lem (gpr i) priv h = cc
same_lem (csr a) (gpr i) h = cc
same_lem (csr a) pc h = cc
same_lem (csr a) priv h = cc
same_lem pc (gpr i) h = cc
same_lem pc (csr a) h = cc
same_lem pc priv h = cc
same_lem priv r h = cc

agree_lem :
    (name : String) (r : Register) (table rows : List (String × Register))
    → agree rows table ≡ true
    → find_register name rows ≡ some r
    → (find_register name table ≡ some r) × (is_written r ≡ true)
unfolding agree find_register
agree_lem name r table [] h e = cc
agree_lem name r table ((s, q) ∷ rest) h e = elim (Option-cases (find_register s table)) [
  | inl p ↦ absurd (let k = rw (p, agree) at h in cc)
  | inr (t, p) ↦
      let k : same t q && (is_written q && agree rest table) ≡ true = rw (p, agree) at h in
      elim (Bool-cases (name == s)) [
        | inl found ↦
            let here : name ≡ s = (eq_iff name s).0 found in
            let chosen : ◌≡◌ {A = Option Register} (some q) (some r) = rw found at e in
            let stands : t ≡ q = same_lem t q (ground arith) in
            let written : is_written q ≡ true = ground arith in
            let last : q ≡ r = ap (λ o. elim o [ none ↦ q | some x ↦ x ]) chosen in
            (
              ap (λ n. find_register n table) here ∙ p ∙ ap some (stands ∙ last),
              sym (ap is_written last) ∙ written,
            )
        | inr missed ↦ agree_lem name r table rest (ground arith) (rw missed at e)
      ]
]

writable-agree : agree writable readable ≡ true
unfolding agree find_register same is_written
writable-agree = refl

read_register-write_register :
    (r : Register) (value : ℕ) (core : RvCore)
    → is_written r ≡ true
    → read_register r (write_register r value core) ≡ value
unfolding read_register write_register is_written
read_register-write_register (gpr i) value core h = ground arith
read_register-write_register (csr a) value core h = ground arith
read_register-write_register pc value core h = refl
read_register-write_register priv value core h = cc

-- When set_register accepts a name, get_register under the same name gives the value back.
pub get_register-set_register :
    (name : String) (value : ℕ) (core core' : RvCore)
    → set_register name value core ≡ (true, core')
    → get_register name core' ≡ some value
unfolding get_register set_register
get_register-set_register name value core core' h =
    elim (Option-cases (find_register name writable)) [
      | inl p ↦ absurd (let e = rw (p, set_register) at h in let f = ap (λ x. x.0) e in cc)
      | inr (r, p) ↦
          let a = agree_lem name r readable writable writable-agree p in
          let e = rw (p, set_register) at h in
          let same_core : core' ≡ write_register r value core = sym (ap (λ x. x.1) e) in
          rw (same_core)
            (rw (a.0, get_register) (ap some (read_register-write_register r value core a.1)))
    ]
