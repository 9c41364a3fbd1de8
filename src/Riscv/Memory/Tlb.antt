-- ===== src/Riscv/Memory/Tlb.antt =====
-- The direct-mapped TLB of memory.cpp as a table from pages to blocks.
use Prim.{Unit, tt}
use kxemu.Base.Shared.{
  ℕ, ◌+◌, ◌-◌, ◌/◌, ◌^◌, ◌<◌, ◌≤◌, ◌≡◌, refl, ap, ◌∙◌, sym, arith, bit_and, true, ◌==◌, ltb, ltb→lt,
  if◌then◌else◌, ◌&&◌, Bool-cases, inl, inr, some, none,
}
use kxemu.Base.Bits.{bit_at, bit_at-lt, bit_at-and, bit_at-shl, bit_at-shr, bit_at_ext}
use kxemu.Riscv.Core.{RvCore, TlbBlock, Result, ok, trap, panic, undefined, ◌>>=◌}
use kxemu.Riscv.Memory.{
  tlb_set, tlb_tag, tlb_tag_and_set, tlb_hit, tlb_push, fill_block, set_block, write_back, noexcept,
  pm_write, bus_write,
}
use kxemu.Base.Digits.{bit_at-cut, bit_and-lt}
use kxemu.Base.Word.{◌<<<◌, ◌>>>◌}

-- The block that stands for a page.
abbrev pub filled_block : ℕ → ℕ → ℕ → ℕ → TlbBlock
filled_block vaddr addr pte_addr flag = record {
  paddr = tlb_tag_and_set addr;
  tag = tlb_tag vaddr;
  pte_addr = pte_addr;
  valid = true;
  flag = flag;
}

-- Two words with the same two adjacent fields agree from the lower field on.
same_fields :
    (x y n k m : ℕ)
    → x / 2 ^ n < 2 ^ (k + m)
    → y / 2 ^ n < 2 ^ (k + m)
    → bit_and x ((2 ^ k - 1) <<< n) >>> n ≡ bit_and y ((2 ^ k - 1) <<< n) >>> n
    → bit_and x ((2 ^ m - 1) <<< (n + k)) ≡ bit_and y ((2 ^ m - 1) <<< (n + k))
    → x / 2 ^ n ≡ y / 2 ^ n
same_fields x y n k m hx hy low high = bit_at_ext (k + m) (x / 2 ^ n) (y / 2 ^ n) hx hy (λ j l.
    rw (bit_at-shr n x j, bit_at-shr n y j)
      (elim (Bool-cases (ltb j k)) [
        | inl p ↦
            sym (bit_at-cut x n k (n + j) (omega arith) (omega (arith, ltb→lt j k p)))
            ∙ sym (bit_at-shr n (bit_and x ((2 ^ k - 1) <<< n)) j)
            ∙ ap (λ t. bit_at t j) low
            ∙ bit_at-shr n (bit_and y ((2 ^ k - 1) <<< n)) j
            ∙ bit_at-cut y n k (n + j) (omega arith) (omega (arith, ltb→lt j k p))
        | inr p ↦
            let above : k ≤ j = ground arith in
            sym (bit_at-cut x (n + k) m (n + j) (omega arith) (omega arith))
            ∙ ap (λ t. bit_at t (n + j)) high
            ∙ bit_at-cut y (n + k) m (n + j) (omega arith) (omega arith)
      ]))

-- Words of one page have the same set and tag.
same_page-cut :
    (x y n k m : ℕ)
    → n ≤ k
    → x < 2 ^ 64
    → y < 2 ^ 64
    → x / 2 ^ n ≡ y / 2 ^ n
    → bit_and x (m <<< k) ≡ bit_and y (m <<< k)
same_page-cut x y n k m h bx b e =
    bit_at_ext 64 (bit_and x (m <<< k)) (bit_and y (m <<< k)) (bit_and-lt 64 x (m <<< k) bx)
      (bit_and-lt 64 y (m <<< k) b)
      (λ j l.
        rw (bit_at-and x (m <<< k) j, bit_at-and y (m <<< k) j, bit_at-shl m k j)
          (elim (Bool-cases (ltb j k)) [
            | inl p ↦ rw p (ground (arith, bit_at-lt x j, bit_at-lt y j))
            | inr p ↦
                let below : k ≤ j = ground arith in
                let f : n + (j - n) ≡ j = omega arith in
                let g : bit_at x j ≡ bit_at y j =
                  sym (ap (λ t. bit_at x t) f)
                  ∙ sym (bit_at-shr n x (j - n))
                  ∙ ap (λ t. bit_at t (j - n)) e
                  ∙ bit_at-shr n y (j - n)
                  ∙ ap (λ t. bit_at y t) f in
                rw g refl
          ]))

same_page-tlb_set :
    (v w : ℕ) → v < 2 ^ 64 → w < 2 ^ 64 → v / 2 ^ 12 ≡ w / 2 ^ 12 → tlb_set v ≡ tlb_set w
same_page-tlb_set v w hv hw e =
    ap (λ t. t >>> 12) (same_page-cut v w 12 12 (2 ^ 5 - 1) (omega arith) hv hw e)

same_page-tlb_tag :
    (v w : ℕ) → v < 2 ^ 64 → w < 2 ^ 64 → v / 2 ^ 12 ≡ w / 2 ^ 12 → tlb_tag v ≡ tlb_tag w
same_page-tlb_tag v w hv hw e = same_page-cut v w 12 17 (2 ^ 47 - 1) (omega arith) hv hw e

tlb_place-same_page :
    (v w : ℕ)
    → v < 2 ^ 64
    → w < 2 ^ 64
    → tlb_set v ≡ tlb_set w
    → tlb_tag v ≡ tlb_tag w
    → v / 2 ^ 12 ≡ w / 2 ^ 12
tlb_place-same_page v w hv hw e f = same_fields v w 12 5 47 (omega arith) (omega arith) e f

fill_block-tlb_hit :
    (v vaddr addr pte_addr flag : ℕ) (core : RvCore)
    → v < 2 ^ 64
    → vaddr < 2 ^ 64
    → tlb_hit v (fill_block vaddr addr pte_addr flag core).1 ≡ (
        if v / 2 ^ 12 == vaddr / 2 ^ 12
        then some (filled_block vaddr addr pte_addr flag)
        else if tlb_set v == tlb_set vaddr
        then none
        else tlb_hit v core)
unfolding tlb_hit fill_block set_block
fill_block-tlb_hit v vaddr addr pte_addr flag core hv ha = ground (
  arith,
  same_page-tlb_set v vaddr hv ha,
  same_page-tlb_tag v vaddr hv ha,
  tlb_place-same_page v vaddr hv ha,
)

write_back-tlb : (b : TlbBlock) (core : RvCore) → (write_back b core).1.tlb ≡ core.tlb
unfolding write_back noexcept pm_write bus_write
write_back-tlb b core = ground arith

same_tlb-tlb_hit : (v : ℕ) (a b : RvCore) → a.tlb ≡ b.tlb → tlb_hit v a ≡ tlb_hit v b
unfolding tlb_hit
same_tlb-tlb_hit v a b e =
    ap (λ t. let k = t (tlb_set v) in if k.valid && (k.tag == tlb_tag v) then some k else none) e

written_back :
    (r : Result (Unit {0})) (core core' : RvCore) (v vaddr addr pte_addr flag : ℕ)
    → core'.tlb ≡ core.tlb
    → v < 2 ^ 64
    → vaddr < 2 ^ 64
    → (((λ c. (r, core')) >>= λ _. fill_block vaddr addr pte_addr flag) core).0 ≡ ok tt
    → tlb_hit v (((λ c. (r, core')) >>= λ _. fill_block vaddr addr pte_addr flag) core).1 ≡ (
        if v / 2 ^ 12 == vaddr / 2 ^ 12
        then some (filled_block vaddr addr pte_addr flag)
        else if tlb_set v == tlb_set vaddr
        then none
        else tlb_hit v core)
written_back (ok a) core core' v vaddr addr pte_addr flag e hv ha h =
    rw (sym (same_tlb-tlb_hit v core' core e))
      (fill_block-tlb_hit v vaddr addr pte_addr flag core' hv ha)
written_back (trap code value) core core' v vaddr addr pte_addr flag e hv ha h = ground arith
written_back panic core core' v vaddr addr pte_addr flag e hv ha h = ground arith
written_back undefined core core' v vaddr addr pte_addr flag e hv ha h = ground arith

-- After a push for `vaddr` that is not ended by the write-back of the block it replaces, a lookup at `v`
-- (both of 64 bits) finds the pushed block exactly when `v` lies in the page of `vaddr`; other pages of
-- its set miss, and a lookup in any other set finds what it found before the push.
pub tlb_push-tlb_hit :
    (v vaddr addr pte_addr flag : ℕ) (core : RvCore)
    → v < 2 ^ 64
    → vaddr < 2 ^ 64
    → (tlb_push vaddr addr pte_addr flag core).0 ≡ ok tt
    → tlb_hit v (tlb_push vaddr addr pte_addr flag core).1 ≡ (
        if v / 2 ^ 12 == vaddr / 2 ^ 12
        then some (filled_block vaddr addr pte_addr flag)
        else if tlb_set v == tlb_set vaddr
        then none
        else tlb_hit v core)
unfolding tlb_push
tlb_push-tlb_hit v vaddr addr pte_addr flag core hv ha h =
    let b = core.tlb (tlb_set vaddr) in
    written_back (write_back b core).0 core (write_back b core).1 v vaddr addr pte_addr flag
      (write_back-tlb b core) hv ha h
