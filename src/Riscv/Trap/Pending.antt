-- ===== src/Riscv/Trap/Pending.antt =====
-- The pending sets of scan_interrupt in interrupt.cpp, and the first code of a list in one.
use kxemu.Base.Shared.{
  ℕ, ◌<◌, ◌≡◌, refl, arith, bit_and, Bool, true, false, not, ◌&&◌, ◌||◌, ◌==◌, ltb, if◌then◌else◌,
  List, [], ◌∷◌, ◌++◌, Option, none, some, ◌⊎◌, inl, inr, Bool-cases, ap, sym, ◌∙◌,
}
use kxemu.Base.Bits.{bit_at, bit_at-and, bit_at-lt, bit_at-zero}
use kxemu.Base.Word.{has_bit, has_bit_digit, bit_at-not64, not64}
use kxemu.Riscv.Def
use kxemu.Riscv.Def.{machine, supervisor}
use kxemu.Riscv.Core.{RvCore, priv_mode, get_csr}
use kxemu.Riscv.Trap.{first_pending, pending_m, pending_s}

-- Whether a code stands in a list.
abbrev pub elem : ℕ → List ℕ → Bool
elem c [] = false
elem c (d ∷ ds) = d == c || elem c ds

-- `code` is in the list and passes the test, and no code before it does.
pub record IsFirst (test : ℕ → Bool) (code : ℕ) (codes : List ℕ) : Type 0 where
  pub before : List ℕ
  pub after : List ℕ
  pub splits : codes ≡ before ++ (code ∷ after)
  pub passes : test code ≡ true
  pub none_before : (c : ℕ) → c < 64 → elem c before ≡ true → test c ≡ false

pub first_pending-IsFirst :
    (pending code : ℕ) (codes : List ℕ)
    → first_pending pending codes ≡ some code
    → IsFirst (has_bit pending) code codes
unfolding first_pending
first_pending-IsFirst pending code [] h = absurd cc
first_pending-IsFirst pending code (c ∷ codes) h = elim (Bool-cases (has_bit pending c)) [
  | inl p ↦
      let e : c ≡ code = ground arith in
      record {
        before = [];
        after = codes;
        splits = ap (λ x. x ∷ codes) e;
        passes = cc;
        none_before = λ d l q. cc;
      }
  | inr p ↦
      let h' : first_pending pending codes ≡ some code = ground arith in
      let rest = first_pending-IsFirst pending code codes h' in
      record {
        before = c ∷ rest.before;
        after = rest.after;
        splits = ap (λ x. c ∷ x) rest.splits;
        passes = rest.passes;
        none_before = λ d l q. ground (arith, rest.none_before d l);
      }
]

pub first_pending-none :
    (pending c : ℕ) (codes : List ℕ)
    → first_pending pending codes ≡ none
    → elem c codes ≡ true
    → has_bit pending c ≡ false
unfolding first_pending
first_pending-none pending c [] h m = cc
first_pending-none pending c (d ∷ codes) h m = ground (arith, first_pending-none pending c codes)

-- Conditions (a) of the manual: which modes an interrupt can interrupt.
abbrev pub interruptible_m : RvCore → Bool
interruptible_m core = ltb (priv_mode core) machine || core.mie

abbrev pub interruptible_s : RvCore → Bool
interruptible_s core = ltb (priv_mode core) supervisor || (priv_mode core == supervisor) && core.sie

-- Conditions (b) and (c), register by register.
abbrev pub is_due : ℕ → RvCore → Bool
is_due code core = has_bit (get_csr core Def.mip) code && has_bit (get_csr core Def.mie) code

abbrev pub is_delegated : ℕ → RvCore → Bool
is_delegated code core = has_bit (get_csr core Def.mideleg) code

pub pending_m_lem :
    (core : RvCore) (code : ℕ)
    → code < 64
    → has_bit (pending_m core) code ≡ (is_due code core && not (is_delegated code core))
unfolding pending_m
pending_m_lem core code h =
    let mip = get_csr core Def.mip in
    let mie = get_csr core Def.mie in
    let mideleg = get_csr core Def.mideleg in
    ground (
      arith,
      has_bit_digit (bit_and (bit_and mip mie) (not64 mideleg)) code,
      has_bit_digit mip code,
      has_bit_digit mie code,
      has_bit_digit mideleg code,
      bit_at-and (bit_and mip mie) (not64 mideleg) code,
      bit_at-and mip mie code,
      bit_at-not64 mideleg code h,
      bit_at-lt mip code,
      bit_at-lt mie code,
      bit_at-lt mideleg code,
    )

pub pending_s_lem :
    (core : RvCore) (code : ℕ)
    → has_bit (pending_s core) code ≡ (is_due code core && is_delegated code core)
unfolding pending_s
pending_s_lem core code =
    let mip = get_csr core Def.mip in
    let mie = get_csr core Def.mie in
    let mideleg = get_csr core Def.mideleg in
    ground (
      arith,
      has_bit_digit (bit_and (bit_and mip mie) mideleg) code,
      has_bit_digit mip code,
      has_bit_digit mie code,
      has_bit_digit mideleg code,
      bit_at-and (bit_and mip mie) mideleg code,
      bit_at-and mip mie code,
      bit_at-lt mip code,
      bit_at-lt mie code,
      bit_at-lt mideleg code,
    )

pub has_bit-zero : (v c : ℕ) → v ≡ 0 → has_bit v c ≡ false
has_bit-zero v c h = ground (arith, has_bit_digit v c, ap (λ x. bit_at x c) h, bit_at-zero c)

pub guard-some :
    (b : Bool) (o : Option ℕ) (x : ℕ) → (if b then o else none) ≡ some x → (b ≡ true) × (o ≡ some x)
guard-some true o x h = (refl, h)
guard-some false o x h = absurd cc

pub guard-none :
    (b : Bool) (o : Option ℕ) → (if b then o else none) ≡ none → (b ≡ false) ⊎ (o ≡ none)
guard-none true o h = inr h
guard-none false o h = inl refl

pub first_pending-lt :
    (pending code : ℕ) (codes : List ℕ)
    → first_pending pending codes ≡ some code
    → ((c : ℕ) → elem c codes ≡ true → c < 64)
    → code < 64
unfolding first_pending
first_pending-lt pending code [] h all = absurd cc
first_pending-lt pending code (c ∷ codes) h all = elim (Bool-cases (has_bit pending c)) [
  | inl p ↦ let e : c ≡ code = ground arith in ground (arith, all c)
  | inr p ↦ first_pending-lt pending code codes (ground arith) (λ d q. ground (arith, all d))
]

pub IsFirst-cong :
    {test test' : ℕ → Bool} {code : ℕ} {codes : List ℕ}
    → ((c : ℕ) → c < 64 → test c ≡ test' c)
    → code < 64
    → IsFirst test code codes
    → IsFirst test' code codes
IsFirst-cong {test} {test'} {code} same h f = record {
  before = f.before;
  after = f.after;
  splits = f.splits;
  passes = sym (same code h) ∙ f.passes;
  none_before = λ c l q. sym (same c l) ∙ f.none_before c l q;
}
