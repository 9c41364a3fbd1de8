-- ===== src/Riscv/Dispatch/Laws.antt =====
-- That the patterns of src/cpu/riscv/instpat do not get in each other's way.
use kxemu.Base.Shared.{
  ℕ, zero, suc, ◌^◌, ◌<◌, ◌≡◌, refl, ap, sym, ◌∙◌, ◌⊎◌, inl, inr, arith, min, bit_and, Bool, true,
  false, not, ◌&&◌, ◌||◌, ◌==◌, if◌then◌else◌, List, [], ◌∷◌, ◌++◌, Option, none, some, Bool-cases,
}
use kxemu.Base.Bits.{bit_at, bit_at-and, bit_at_ext}
use kxemu.Base.Digits.{bit_and-lt}
use kxemu.Riscv.Dispatch.{find_case, decode}
use kxemu.Riscv.Dispatch.Rows.{Row, row, Group, group, Target, Outside, outside}
use kxemu.Riscv.Dispatch.Base.{base_table}

-- A pattern of the table: its mask, its key and what it stands for.
pub record Pattern : Type 0 where
  pub mask : ℕ
  pub key : ℕ
  pub target : Target

with_mask : ℕ → List Row → List Pattern
with_mask mask [] = []
with_mask mask (row key t ∷ rows) =
    record { mask = mask; key = key; target = t } ∷ with_mask mask rows

-- All patterns, in the order of the switches.
unfoldable pub patterns : List Group → List Pattern
unfolding with_mask
patterns [] = []
patterns (group mask rows ∷ groups) = with_mask mask rows ++ patterns groups

first : List Pattern → ℕ → Option Target
first [] w = none
first (p ∷ ps) w = if bit_and w p.mask == p.key then some p.target else first ps w

first-append :
    (mask : ℕ) (rows : List Row) (ps : List Pattern) (w : ℕ)
    → first (with_mask mask rows ++ ps) w
      ≡ elim (find_case (bit_and w mask) rows) [ some t ↦ some t | none ↦ first ps w ]
unfolding with_mask first find_case
first-append mask [] ps w = refl
first-append mask (row key t ∷ rows) ps w = ground (arith, first-append mask rows ps w)

decode-first : (groups : List Group) (w : ℕ) → decode groups w ≡ first (patterns groups) w
unfolding decode patterns first
decode-first [] w = refl
decode-first (group mask rows ∷ groups) w =
    ground (arith, first-append mask rows (patterns groups) w, decode-first groups w)

bit_and-swap : (w a b : ℕ) → w < 2 ^ 32 → bit_and (bit_and w a) b ≡ bit_and (bit_and w b) a
bit_and-swap w a b h =
    bit_at_ext 32 (bit_and (bit_and w a) b) (bit_and (bit_and w b) a)
      (bit_and-lt 32 (bit_and w a) b (bit_and-lt 32 w a h))
      (bit_and-lt 32 (bit_and w b) a (bit_and-lt 32 w b h))
      (λ j l.
        rw
          (
            bit_at-and (bit_and w a) b j,
            bit_at-and (bit_and w b) a j,
            bit_at-and w a j,
            bit_at-and w b j,
          )
          (omega arith))

-- Some word matches both patterns.
overlap : Pattern → Pattern → Bool
overlap p q = bit_and p.key q.mask == bit_and q.key p.mask

overlap-lem :
    (p q : Pattern) (w : ℕ)
    → w < 2 ^ 32
    → bit_and w p.mask ≡ p.key
    → bit_and w q.mask ≡ q.key
    → overlap p q ≡ true
unfolding overlap
overlap-lem p q w h e f =
    let same : bit_and p.key q.mask ≡ bit_and q.key p.mask =
      sym (ap (λ t. bit_and t q.mask) e)
      ∙ bit_and-swap w p.mask q.mask h
      ∙ ap (λ t. bit_and t p.mask) f in
    ground arith

-- fclass.s, whose words the pattern of fmv.x.w takes.
abbrev pub is_fclass_s : Target → Bool
is_fclass_s (outside Outside.fclass_s) = true
is_fclass_s _ = false

apart : Pattern → List Pattern → Bool
apart p [] = true
apart p (q ∷ qs) = (is_fclass_s q.target || not (overlap p q)) && apart p qs

clear : List Pattern → Bool
clear [] = true
clear (p ∷ ps) = apart p ps && clear ps

abbrev pub Listed : Pattern → List Pattern → Type 0
Listed p [] = ◌≡◌ {A = ℕ} 0 1
Listed p (q ∷ qs) = (p ≡ q) ⊎ Listed p qs

apart-lem :
    (p q : Pattern) (ps : List Pattern)
    → apart p ps ≡ true
    → Listed q ps
    → is_fclass_s q.target ≡ false
    → overlap p q ≡ false
unfolding apart
apart-lem p q [] h l e = absurd (omega arith)
apart-lem p q (r ∷ ps) h (inl s) e =
    let f : overlap p q ≡ overlap p r = ap (λ t. overlap p t) s in
    let g : is_fclass_s q.target ≡ is_fclass_s r.target = ap (λ t. is_fclass_s t.target) s in
    ground arith
apart-lem p q (r ∷ ps) h (inr l) e = apart-lem p q ps (ground arith) l e

first-Listed :
    (p : Pattern) (ps : List Pattern) (w : ℕ)
    → clear ps ≡ true
    → w < 2 ^ 32
    → Listed p ps
    → is_fclass_s p.target ≡ false
    → bit_and w p.mask ≡ p.key
    → first ps w ≡ some p.target
unfolding clear first
first-Listed p [] w c h l e m = absurd (omega arith)
first-Listed p (q ∷ ps) w c h (inl s) e m =
    let masked : bit_and w q.mask ≡ q.key =
      sym (ap (λ t. bit_and w t.mask) s) ∙ m ∙ ap (λ t. t.key) s in
    let same : p.target ≡ q.target = ap (λ t. t.target) s in
    let hit : (bit_and w q.mask == q.key) ≡ true = ground arith in rw hit (ap some (sym same))
first-Listed p (q ∷ ps) w c h (inr l) e m = elim (Bool-cases (bit_and w q.mask == q.key)) [
  | inl hit ↦
      let both : overlap q p ≡ true = overlap-lem q p w h (ground arith) m in
      let none_such : overlap q p ≡ false = apart-lem q p ps (ground arith) l e in cc
  | inr miss ↦ rw miss (first-Listed p ps w (ground arith) h l e m)
]

base-clear : clear (patterns base_table) ≡ true
unfolding clear apart overlap patterns
base-clear = refl

-- Every pattern of base.instpat but fclass.s decides: a 32-bit word that matches it is decoded as the
-- pattern says, whatever the order of the switches.
pub decode-Listed :
    (p : Pattern) (w : ℕ)
    → Listed p (patterns base_table)
    → w < 2 ^ 32
    → bit_and w p.mask ≡ p.key
    → is_fclass_s p.target ≡ false
    → decode base_table w ≡ some p.target
decode-Listed p w l h m e =
    decode-first base_table w ∙ first-Listed p (patterns base_table) w base-clear h l e m

is_masked : ℕ → ℕ → ℕ → ℕ → Bool
is_masked m k m' k' = bit_and m m' == m' && (bit_and k m' == k')

-- A word that matches a pattern matches one that asks for fewer of its digits.
bit_and-submask :
    (w m m' k k' : ℕ)
    → w < 2 ^ 32
    → bit_and m m' ≡ m'
    → bit_and k m' ≡ k'
    → bit_and w m ≡ k
    → bit_and w m' ≡ k'
bit_and-submask w m m' k k' h sub e f =
    bit_at_ext 32 (bit_and w m') (bit_and (bit_and w m) m') (bit_and-lt 32 w m' h)
      (bit_and-lt 32 (bit_and w m) m' (bit_and-lt 32 w m h))
      (λ j l.
        let digit : min (bit_at m j) (bit_at m' j) ≡ bit_at m' j =
          sym (bit_at-and m m' j) ∙ ap (λ t. bit_at t j) sub in
        rw (bit_at-and w m' j, bit_at-and (bit_and w m) m' j, bit_at-and w m j) (omega arith))
    ∙ ap (λ t. bit_and t m') f
    ∙ e

abbrev pub nth : ℕ → List Pattern → Option Pattern
nth n [] = none
nth zero (p ∷ ps) = some p
nth (suc n) (p ∷ ps) = nth n ps

pub nth-Listed : (n : ℕ) (p : Pattern) (ps : List Pattern) → nth n ps ≡ some p → Listed p ps
nth-Listed n p [] h = cc
nth-Listed zero p (q ∷ ps) h = inl cc
nth-Listed (suc n) p (q ∷ ps) h = inr (nth-Listed n p ps h)

-- No word is decoded as fclass.s: each word of that instruction is decoded as fmv.x.w.
pub fclass_s_decodes_as_fmv_x_w :
    (w : ℕ)
    → w < 2 ^ 32
    → bit_and w 0xfff0707f ≡ 0xe0001053
    → decode base_table w ≡ some (outside Outside.fmv_x_w)
unfolding patterns
fclass_s_decodes_as_fmv_x_w w h m =
    decode-Listed (record { mask = 0xfff0007f; key = 0xe0000053; target = outside Outside.fmv_x_w })
      w
      (nth-Listed 111
        (record { mask = 0xfff0007f; key = 0xe0000053; target = outside Outside.fmv_x_w })
        (patterns base_table) refl)
      h (bit_and-submask w 0xfff0707f 0xfff0007f 0xe0001053 0xe0000053 h refl refl m) refl
