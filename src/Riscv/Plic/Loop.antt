-- ===== src/Riscv/Plic/Loop.antt =====
-- The loop of scan_and_set_interrupt of plic.cpp over the devices on the bus.
use kxemu.Base.Shared.{
  ℕ, suc, ◌≤◌, ◌<◌, ◌≡◌, refl, ◌⊎◌, inl, inr, arith, Bool, true, false, ◌&&◌, leb, List, [], ◌∷◌,
  sym, ◌∙◌, none, some, Bool-cases, ◌≢◌,
}
use kxemu.Device.Mmio
use kxemu.Device.Bus.{MmioMapBlock}
use kxemu.Riscv.Plic.{Plic, Scan, consider, scan_maps, set_source}

-- The device of a map has an interrupt pending that is enabled for `context`.
abbrev pub asks : Plic → ℕ → MmioMapBlock → Bool
asks plic context m = Mmio.interrupt_pending m.dev && (plic.interrupt_sources m.id).enable context

abbrev pub All : (MmioMapBlock → Type 0) → List MmioMapBlock → Type 0
All P [] = ◌≡◌ {A = ℕ} 0 0
All P (m ∷ ms) = P m × All P ms

abbrev pub Any : (MmioMapBlock → Type 0) → List MmioMapBlock → Type 0
Any P [] = ◌≡◌ {A = ℕ} 0 1
Any P (m ∷ ms) = P m ⊎ Any P ms

-- The scan has changed no priority and no enable bit.
pub record IsKept (plic : Plic) (s : Scan) : Type 0 where
  pub priority :
      (i : ℕ) → (s.plic.interrupt_sources i).priority ≡ (plic.interrupt_sources i).priority
  pub enable : (i : ℕ) → (s.plic.interrupt_sources i).enable ≡ (plic.interrupt_sources i).enable
  pub targets : s.plic.target_contexts ≡ plic.target_contexts

consider-IsKept :
    (plic : Plic) (context place id : ℕ) (s : Scan)
    → IsKept plic s
    → IsKept plic (consider context place id s)
unfolding consider set_source
consider-IsKept plic context place id s k = record {
  priority = λ i. ground (arith, k.priority i, k.priority id);
  enable = λ i. ground (arith, k.enable i, k.enable id);
  targets = ground (arith, k.targets);
}

-- What the loop makes of the devices from `s` on.
pub record IsScan (plic : Plic) (context : ℕ) (maps : List MmioMapBlock) (s t : Scan) : Type 0 where
  pub kept : IsKept plic t
  pub grows : s.priority ≤ t.priority
  pub covers :
      All
        (λ m. asks plic context m ≡ true → (plic.interrupt_sources m.id).priority ≤ t.priority)
        maps
  pub chosen :
      ((t.claim ≡ s.claim)
        × (t.priority ≡ s.priority)
        × All
            (λ m. asks plic context m ≡ true → (plic.interrupt_sources m.id).priority < s.priority)
            maps)
      ⊎ (((plic.interrupt_sources t.claim).priority ≡ t.priority)
          × Any (λ m. (asks plic context m ≡ true) × (m.id ≡ t.claim)) maps)

skip-IsScan :
    (plic : Plic) (context : ℕ) (m : MmioMapBlock) (ms : List MmioMapBlock) (s t : Scan)
    → asks plic context m ≡ false
    → IsScan plic context ms s t
    → IsScan plic context (m ∷ ms) s t
skip-IsScan plic context m ms s t n r = record {
  kept = r.kept;
  grows = r.grows;
  covers = ((λ h. cc), r.covers);
  chosen = elim r.chosen [
    | inl (e, q, a) ↦ inl (e, q, ((λ h. cc), a))
    | inr (p, a) ↦ inr (p, inr a)
  ];
}

-- A source that asks, below the priority reached so far.
low-IsScan :
    (plic : Plic) (context place : ℕ) (m : MmioMapBlock) (ms : List MmioMapBlock) (s t : Scan)
    → IsKept plic s
    → leb s.priority (plic.interrupt_sources m.id).priority ≡ false
    → IsScan plic context ms s t
    → IsScan plic context (m ∷ ms) s t
low-IsScan plic context place m ms s t k low r =
    let below : (plic.interrupt_sources m.id).priority < s.priority = ground arith in
    record {
      kept = r.kept;
      grows = r.grows;
      covers = ((λ h. omega (arith, r.grows)), r.covers);
      chosen = elim r.chosen [
        | inl (e, q, a) ↦ inl (e, q, ((λ h. below), a))
        | inr (p, a) ↦ inr (p, inr a)
      ];
    }

taken-IsScan :
    (plic : Plic) (context : ℕ) (m : MmioMapBlock) (ms : List MmioMapBlock) (s s' t : Scan)
    → asks plic context m ≡ true
    → s.priority ≤ s'.priority
    → s'.priority ≡ (plic.interrupt_sources m.id).priority
    → s'.claim ≡ m.id
    → IsScan plic context ms s' t
    → IsScan plic context (m ∷ ms) s t
taken-IsScan plic context m ms s s' t asked le e f r = record {
  kept = r.kept;
  grows = omega (arith, r.grows);
  covers = ((λ h. omega (arith, r.grows)), r.covers);
  chosen = elim r.chosen [
    | inl (g, q, a) ↦
        let same : t.claim ≡ m.id = g ∙ f in inr (rw same (sym e ∙ sym q), inl (asked, sym same))
    | inr (p, a) ↦ inr (p, inr a)
  ];
}

done-IsScan : (plic : Plic) (context : ℕ) (s : Scan) → IsKept plic s → IsScan plic context [] s s
done-IsScan plic context s k = record {
  kept = k;
  grows = omega arith;
  covers = refl;
  chosen = inl (refl, refl, refl);
}

same-IsScan :
    (plic : Plic) (context : ℕ) (ms : List MmioMapBlock) (s s' t : Scan)
    → s'.priority ≡ s.priority
    → s'.claim ≡ s.claim
    → IsScan plic context ms s' t
    → IsScan plic context ms s t
same-IsScan plic context ms s s' t e f r = record {
  kept = r.kept;
  grows = omega (arith, r.grows);
  covers = r.covers;
  chosen = rw (sym e, sym f) (r.chosen);
}

considered-IsScan :
    (plic : Plic) (context place : ℕ) (m : MmioMapBlock) (ms : List MmioMapBlock) (s t : Scan)
    → IsKept plic s
    → Mmio.interrupt_pending m.dev ≡ true
    → IsScan plic context ms (consider context place m.id s) t
    → IsScan plic context (m ∷ ms) s t
unfolding consider
considered-IsScan plic context place m ms s t k p r =
    let s' = consider context place m.id s in
    let source = plic.interrupt_sources m.id in
    elim (Bool-cases (source.enable context)) [
      | inr off ↦ skip-IsScan plic context m ms s t (ground arith) (
          same-IsScan plic context ms s s' t (ground (arith, k.enable m.id))
            (ground (arith, k.enable m.id)) r)
      | inl on ↦ elim (Bool-cases (leb s.priority source.priority)) [
        | inr low ↦ low-IsScan plic context place m ms s t k low (
            same-IsScan plic context ms s s' t (ground (arith, k.priority m.id))
              (ground (arith, k.priority m.id)) r)
        | inl high ↦
            taken-IsScan plic context m ms s s' t (ground arith)
              (ground (arith, k.priority m.id, k.enable m.id))
              (ground (arith, k.priority m.id, k.enable m.id))
              (ground (arith, k.priority m.id, k.enable m.id)) r
      ]
    ]

-- The loop finds the highest priority.
pub scan_maps-IsScan :
    (plic : Plic) (context place : ℕ) (maps : List MmioMapBlock) (s t : Scan)
    → IsKept plic s
    → scan_maps context place maps s ≡ some t
    → IsScan plic context maps s t
unfolding scan_maps
scan_maps-IsScan plic context place [] s t k e =
    let q : s ≡ t = cc in rw (sym q) (done-IsScan plic context s k)
scan_maps-IsScan plic context place (m ∷ ms) s t k e =
    elim (Bool-cases (Mmio.interrupt_pending m.dev)) [
      | inr p ↦
          let rest : scan_maps context (suc place) ms s ≡ some t = ground arith in
          let quiet_dev : asks plic context m ≡ false = ground arith in
          skip-IsScan plic context m ms s t quiet_dev
            (scan_maps-IsScan plic context (suc place) ms s t k rest)
      | inl p ↦
          let s' = consider context place m.id s in
          let k' = consider-IsKept plic context place m.id s k in
          let rest : scan_maps context (suc place) ms s' ≡ some t = ground arith in
          considered-IsScan plic context place m ms s t k p
            (scan_maps-IsScan plic context (suc place) ms s' t k' rest)
    ]

-- The state before the loop.
abbrev pub start : Plic → ℕ → Scan
start plic context = record {
  priority = (plic.target_contexts context).threshold;
  claim = 0;
  source_dev = none;
  plic = plic;
}

pub start-IsKept : (plic : Plic) (context : ℕ) → IsKept plic (start plic context)
start-IsKept plic context = record { priority = λ i. refl; enable = λ i. refl; targets = refl }

-- A source that asks has a number.
pub named :
    (plic : Plic) (context : ℕ) (maps : List MmioMapBlock) (id : ℕ)
    → All (λ m. Mmio.interrupt_pending m.dev ≡ true → 0 < m.id) maps
    → Any (λ m. (asks plic context m ≡ true) × (m.id ≡ id)) maps
    → id ≢ 0
named plic context [] id h a = absurd (omega arith)
named plic context (m ∷ ms) id h (inl (p, e)) =
    let pending : Mmio.interrupt_pending m.dev ≡ true = ground arith in omega (arith, h.0 pending)
named plic context (m ∷ ms) id h (inr a) = named plic context ms id h.1 a
