-- ===== src/Riscv/Plic/Serve.antt =====
-- That scan_and_set_interrupt of plic.cpp serves a source that asks, and which device it clears.
use kxemu.Base.Shared.{
  ℕ, suc, ◌<◌, ◌≡◌, refl, ap, sym, ◌∙◌, ◌⊎◌, inl, inr, arith, Bool, true, ◌&&◌, leb, ltb,
  if◌then◌else◌, List, [], ◌∷◌, Bool-cases, Option-cases, ◌≢◌, Option, none, some,
}
use kxemu.Device.Mmio
use kxemu.Device.Bus.{Bus, MmioMapBlock}
use kxemu.Riscv.Plic.Loop.{asks, All, Any, start, start-IsKept, scan_maps-IsScan, named}
use kxemu.Riscv.Signal.{raise}
use kxemu.Riscv.Plic.{
  Plic, Scan, consider, scan_maps, clear_at, claim_scanned, context_of, scan_and_set_interrupt,
  external_code, set_target,
}

-- The place of the last device in a list that has an interrupt pending.
abbrev pub last_pending : ℕ → List MmioMapBlock → Option ℕ → Option ℕ
last_pending place [] o = o
last_pending place (m ∷ ms) o =
    last_pending (suc place) ms (if Mmio.interrupt_pending m.dev then some place else o)

scan_maps-source_dev :
    (context place : ℕ) (maps : List MmioMapBlock) (s t : Scan)
    → scan_maps context place maps s ≡ some t
    → t.source_dev ≡ last_pending place maps s.source_dev
unfolding scan_maps consider
scan_maps-source_dev context place [] s t e = ground arith
scan_maps-source_dev context place (m ∷ ms) s t e =
    elim (Bool-cases (Mmio.interrupt_pending m.dev)) [
      | inr p ↦ rw p (scan_maps-source_dev context (suc place) ms s t (ground arith))
      | inl p ↦
          let s' = consider context place m.id s in
          let dev : s'.source_dev ≡ some place = ground arith in
          let rest : scan_maps context (suc place) ms s' ≡ some t = ground arith in
          rw p (
            scan_maps-source_dev context (suc place) ms s' t rest
            ∙ ap (λ o. last_pending (suc place) ms o) dev)
    ]

scan_maps_total :
    (context place : ℕ) (maps : List MmioMapBlock) (s : Scan)
    → All (λ m. Mmio.interrupt_pending m.dev ≡ true → m.id < 32) maps
    → (t : Scan) × (scan_maps context place maps s ≡ some t)
unfolding scan_maps
scan_maps_total context place [] s h = (s, refl)
scan_maps_total context place (m ∷ ms) s h = elim (Bool-cases (Mmio.interrupt_pending m.dev)) [
  | inr p ↦ let (t, e) = scan_maps_total context (suc place) ms s h.1 in (t, ground arith)
  | inl p ↦
      let (t, e) = scan_maps_total context (suc place) ms (consider context place m.id s) h.1 in
      let below : ltb m.id 32 ≡ true = ground (arith, h.0 p) in (t, ground arith)
]

-- Whichever source it claims, a scan that raises an external interrupt clears the interrupt of the last
-- device on the bus that has one pending, and of no other.
pub scan_clears_last :
    (hart_id priv_mode : ℕ) (plic : Plic) (bus : Bus) (plic' : Plic) (bus' : Bus) (core code : ℕ)
    → scan_and_set_interrupt hart_id priv_mode plic bus ≡ some (plic', bus', raise core code)
    → (place : ℕ) × (last_pending 0 bus.mmio_maps none ≡ some place)
      × (bus'.mmio_maps ≡ clear_at place bus.mmio_maps)
unfolding scan_and_set_interrupt claim_scanned
scan_clears_last hart_id priv_mode plic bus plic' bus' core code h =
    let context = context_of hart_id priv_mode in
    elim (Option-cases (scan_maps context 0 bus.mmio_maps (start plic context))) [
      | inl p ↦ absurd (ground arith)
      | inr (s, p) ↦ elim (Option-cases (s.source_dev)) [
        | inl q ↦ absurd (ground arith)
        | inr (place, q) ↦ (
          place,
          sym (scan_maps-source_dev context 0 bus.mmio_maps (start plic context) s p) ∙ q,
          ground arith,
        )
      ]
    ]

-- Where some device has an interrupt pending, there is a last one.
last_pending-some :
    (plic : Plic) (context id place : ℕ) (maps : List MmioMapBlock) (o : Option ℕ)
    → (Any (λ m. (asks plic context m ≡ true) × (m.id ≡ id)) maps) ⊎ ((i : ℕ) × (o ≡ some i))
    → (i : ℕ) × (last_pending place maps o ≡ some i)
last_pending-some plic context id place [] o (inl a) = absurd (omega arith)
last_pending-some plic context id place [] o (inr (i, e)) = (i, e)
last_pending-some plic context id place (m ∷ ms) o h =
    elim (Bool-cases (Mmio.interrupt_pending m.dev)) [
      | inl p ↦
          rw p (last_pending-some plic context id (suc place) ms (some place) (inr (place, refl)))
      | inr p ↦ rw p (
          last_pending-some plic context id (suc place) ms o (elim h [
            | inl (inl (a, e)) ↦ absurd (ground arith)
            | inl (inr a) ↦ inl a
            | inr r ↦ inr r
          ]))
    ]

-- A source that would be served.
abbrev pub eligible : Plic → ℕ → MmioMapBlock → Bool
eligible plic context m =
    asks plic context m
    && leb (plic.target_contexts context).threshold (plic.interrupt_sources m.id).priority

not_all_below :
    (plic : Plic) (context : ℕ) (maps : List MmioMapBlock)
    → Any (λ m. eligible plic context m ≡ true) maps
    → All
        (λ m.
          asks plic context m ≡ true
          → (plic.interrupt_sources m.id).priority < (plic.target_contexts context).threshold)
        maps
    → ◌≡◌ {A = ℕ} 0 1
not_all_below plic context [] a h = a
not_all_below plic context (m ∷ ms) (inl p) h =
    let asked : asks plic context m ≡ true = ground arith in absurd (ground (arith, h.0 asked))
not_all_below plic context (m ∷ ms) (inr a) h = not_all_below plic context ms a h.1

All-left :
    (maps : List MmioMapBlock)
    → All (λ m. Mmio.interrupt_pending m.dev ≡ true → (0 < m.id) × (m.id < 32)) maps
    → All (λ m. Mmio.interrupt_pending m.dev ≡ true → 0 < m.id) maps
All-left [] h = h
All-left (m ∷ ms) h = ((λ p. (h.0 p).0), All-left ms h.1)

All-right :
    (maps : List MmioMapBlock)
    → All (λ m. Mmio.interrupt_pending m.dev ≡ true → (0 < m.id) × (m.id < 32)) maps
    → All (λ m. Mmio.interrupt_pending m.dev ≡ true → m.id < 32) maps
All-right [] h = h
All-right (m ∷ ms) h = ((λ p. (h.0 p).1), All-right ms h.1)

-- A context of an existing core that has no claim is served: if a device asks for it with a priority
-- that reaches its threshold, and the devices with an interrupt pending have numbers from 1 to 31, the
-- scan raises the core's external interrupt.
pub scan_serves :
    (hart_id priv_mode core : ℕ) (plic : Plic) (bus : Bus)
    → context_of hart_id priv_mode < 32
    → (plic.target_contexts (context_of hart_id priv_mode)).claim ≡ 0
    → (plic.target_contexts (context_of hart_id priv_mode)).core ≡ some core
    → All (λ m. Mmio.interrupt_pending m.dev ≡ true → (0 < m.id) × (m.id < 32)) bus.mmio_maps
    → Any (λ m. eligible plic (context_of hart_id priv_mode) m ≡ true) bus.mmio_maps
    → (plic' : Plic) × (bus' : Bus) × (scan_and_set_interrupt hart_id priv_mode plic bus
        ≡ some (plic', bus', raise core (external_code (context_of hart_id priv_mode))))
unfolding scan_and_set_interrupt claim_scanned
scan_serves hart_id priv_mode core plic bus inside free owned ids asked =
    let context = context_of hart_id priv_mode in
    let maps = bus.mmio_maps in
    let (s, p) = scan_maps_total context 0 maps (start plic context) (All-right maps ids) in
    let r =
      scan_maps-IsScan plic context 0 maps (start plic context) s (start-IsKept plic context) p in
    elim r.chosen [
      | inl (e, q, a) ↦ absurd (omega (arith, not_all_below plic context maps asked a))
      | inr (q, a) ↦
          let (place, l) = last_pending-some plic context s.claim 0 maps none (inl a) in
          let dev : s.source_dev ≡ some place =
            scan_maps-source_dev context 0 maps (start plic context) s p ∙ l in
          let claims : s.claim ≢ 0 = named plic context maps s.claim (All-left maps ids) a in
          let target : (s.plic.target_contexts context).core ≡ some core =
            ap (λ f. (f context).core) r.kept.targets ∙ owned in
          (
            set_target context (record (s.plic.target_contexts context) { claim = s.claim })
                (s.plic),
            record bus { mmio_maps = clear_at place maps },
            ground arith,
          )
    ]
