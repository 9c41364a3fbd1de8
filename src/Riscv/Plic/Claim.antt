-- ===== src/Riscv/Plic/Claim.antt =====
-- Which interrupt scan_and_set_interrupt of plic.cpp claims.
use kxemu.Base.Shared.{
  ℕ, ◌≤◌, ◌<◌, ◌≡◌, ap, inl, inr, arith, true, if◌then◌else◌, List, [], ◌∷◌, sym, ◌∙◌, some,
  Bool-cases, Option-cases, ◌≢◌,
}
use kxemu.Device.Mmio
use kxemu.Device.Bus.{Bus, MmioMapBlock}
use kxemu.Riscv.Plic.Loop.{asks, All, Any, start, start-IsKept, scan_maps-IsScan, named}
use kxemu.Riscv.Signal.{quiet, raise}
use kxemu.Riscv.Plic.{
  Plic, Scan, scan_maps, set_target, claim_scanned, context_of, scan_and_set_interrupt,
  external_code,
}

-- `id` asks, its priority reaches the threshold, and no source that asks has a higher one.
pub record IsBest (plic : Plic) (context : ℕ) (maps : List MmioMapBlock) (id : ℕ) : Type 0 where
  pub found : Any (λ m. (asks plic context m ≡ true) × (m.id ≡ id)) maps
  pub reaches : (plic.target_contexts context).threshold ≤ (plic.interrupt_sources id).priority
  pub highest :
      All
        (λ m.
          (if asks plic context m then (plic.interrupt_sources m.id).priority else 0)
          ≤ (plic.interrupt_sources id).priority)
        maps

asked_below :
    (plic : Plic) (context bound : ℕ) (maps : List MmioMapBlock)
    → All (λ m. asks plic context m ≡ true → (plic.interrupt_sources m.id).priority ≤ bound) maps
    → All
        (λ m. (if asks plic context m then (plic.interrupt_sources m.id).priority else 0) ≤ bound)
        maps
asked_below plic context bound [] h = h
asked_below plic context bound (m ∷ ms) h = (
  elim (Bool-cases (asks plic context m)) [ inl p ↦ rw p (h.0 p) | inr p ↦ rw p (omega arith) ],
  asked_below plic context bound ms h.1,
)

-- A scan that tells the core of an interrupt has run the loop to an end with a claim.
record IsClaimed (context : ℕ) (plic : Plic) (bus : Bus) (plic' : Plic) (number line : ℕ) (s : Scan)
    : Type 0 where
  scanned : scan_maps context 0 bus.mmio_maps (start plic context) ≡ some s
  claim : (plic'.target_contexts context).claim ≡ s.claim
  nonzero : s.claim ≢ 0
  core : (s.plic.target_contexts context).core ≡ some number
  code : line ≡ external_code context

claimed :
    (hart_id priv_mode : ℕ) (plic : Plic) (bus : Bus) (plic' : Plic) (bus' : Bus) (core code : ℕ)
    → scan_and_set_interrupt hart_id priv_mode plic bus ≡ some (plic', bus', raise core code)
    → (s : Scan) × IsClaimed (context_of hart_id priv_mode) plic bus plic' core code s
unfolding scan_and_set_interrupt claim_scanned set_target
claimed hart_id priv_mode plic bus plic' bus' core code h =
    let context = context_of hart_id priv_mode in
    elim (Option-cases (scan_maps context 0 bus.mmio_maps (start plic context))) [
      | inl p ↦ absurd (ground arith)
      | inr (s, p) ↦ (
        s,
        record {
          scanned = p;
          claim = ground arith;
          nonzero = ground arith;
          core = ground arith;
          code = ground arith;
        },
      )
    ]

-- When a scan raises a core's external interrupt, the context (of that core, its even one for M-mode
-- and the odd one for S-mode) has claimed a source that asks for it, reaches its threshold and has the
-- highest priority of all sources that ask for it.
pub scan_and_set_interrupt-IsBest :
    (hart_id priv_mode : ℕ) (plic : Plic) (bus : Bus) (plic' : Plic) (bus' : Bus) (core code : ℕ)
    → scan_and_set_interrupt hart_id priv_mode plic bus ≡ some (plic', bus', raise core code)
    → let context = context_of hart_id priv_mode in
      IsBest plic context bus.mmio_maps (plic'.target_contexts context).claim
      × ((plic.target_contexts context).core ≡ some core)
      × (code ≡ external_code context)
scan_and_set_interrupt-IsBest hart_id priv_mode plic bus plic' bus' core code h =
    let context = context_of hart_id priv_mode in
    let (s, c) = claimed hart_id priv_mode plic bus plic' bus' core code h in
    let r =
      scan_maps-IsScan plic context 0 bus.mmio_maps (start plic context) s
        (start-IsKept plic context) c.scanned in
    elim r.chosen [
      | inl (e, q, a) ↦ absurd (c.nonzero e)
      | inr (p, a) ↦ (
        rw c.claim (record {
          found = a;
          reaches = rw p r.grows;
          highest =
              asked_below plic context (plic.interrupt_sources s.claim).priority bus.mmio_maps
                (rw p r.covers);
        }),
        sym (ap (λ f. (f context).core) r.kept.targets) ∙ c.core,
        c.code,
      )
    ]

-- A context without a claim that a scan leaves alone has no source that asks for it and reaches its
-- threshold, provided that the devices with interrupts have numbers from 1 on.
pub scan_quiet_when_none :
    (hart_id priv_mode : ℕ) (plic : Plic) (bus : Bus) (plic' : Plic) (bus' : Bus)
    → (plic.target_contexts (context_of hart_id priv_mode)).claim ≡ 0
    → All (λ m. Mmio.interrupt_pending m.dev ≡ true → 0 < m.id) bus.mmio_maps
    → scan_and_set_interrupt hart_id priv_mode plic bus ≡ some (plic', bus', quiet)
    → let context = context_of hart_id priv_mode in
      All
        (λ m.
          asks plic context m ≡ true
          → (plic.interrupt_sources m.id).priority < (plic.target_contexts context).threshold)
        bus.mmio_maps
unfolding scan_and_set_interrupt claim_scanned
scan_quiet_when_none hart_id priv_mode plic bus plic' bus' free ids h =
    let context = context_of hart_id priv_mode in
    elim (Option-cases (scan_maps context 0 bus.mmio_maps (start plic context))) [
      | inl p ↦ absurd (ground arith)
      | inr (s, p) ↦
          let r =
            scan_maps-IsScan plic context 0 bus.mmio_maps (start plic context) s
              (start-IsKept plic context) p in
          let zero_claim : s.claim ≡ 0 = ground arith in
          elim r.chosen [
            | inl (e, q, a) ↦ a
            | inr (q, a) ↦ absurd (named plic context bus.mmio_maps s.claim ids a zero_claim)
          ]
    ]
