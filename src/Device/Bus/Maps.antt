-- ===== src/Device/Bus/Maps.antt =====
-- The maps of the bus: `add_mmio_map` keeps the devices' address ranges apart, so an address
-- belongs to one device; `add_memory_map` and `in_range` of bus.cpp check less.
use kxemu.Base.Shared.{
  ℕ, ◌+◌, ◌^◌, ◌≤◌, ◌<◌, ◌≡◌, arith, ◌⊎◌, inl, inr, true, false, Bool-cases, List, [], ◌∷◌, ◌++◌,
  some,
}
use kxemu.Device.Mmio.{Device}
use kxemu.Device.Bus.Block.{MemoryBlock, in_range}
use kxemu.Device.Bus.{
  Bus, MmioMapBlock, match_mmio, mmio_in_range, overlaps_mmio, overlaps_memory, add_mmio_map,
  add_memory_map,
}

-- A range that is not empty and does not reach the end of the address space.
pub record IsRange (m : MmioMapBlock) : Type 0 where
  pub nonempty : 0 < m.size
  pub no_wrap : m.start + m.size < 2 ^ 64

abbrev pub Apart : MmioMapBlock → MmioMapBlock → Type 0
Apart a b = (a.start + a.size ≤ b.start) ⊎ (b.start + b.size ≤ a.start)

abbrev pub AllApart : MmioMapBlock → List MmioMapBlock → Type 0
AllApart b [] = Unit {0}
AllApart b (m ∷ ms) = Apart m b × AllApart b ms

-- Every two ranges of the list are apart.
abbrev pub IsDisjoint : List MmioMapBlock → Type 0
IsDisjoint [] = Unit {0}
IsDisjoint (m ∷ ms) = IsRange m × AllApart m ms × IsDisjoint ms

pub overlaps_mmio-AllApart :
    (ms : List MmioMapBlock) (b : MmioMapBlock)
    → IsDisjoint ms
    → IsRange b
    → overlaps_mmio ms b.start b.size ≡ false
    → AllApart b ms
unfolding overlaps_mmio
overlaps_mmio-AllApart [] b d r h = tt
overlaps_mmio-AllApart (m ∷ ms) b d r h =
    let range : IsRange m = d.0 in (ground arith, overlaps_mmio-AllApart ms b d.2 r (ground arith))

AllApart-snoc :
    (ms : List MmioMapBlock) (a b : MmioMapBlock)
    → AllApart a ms
    → Apart b a
    → AllApart a (ms ++ (b ∷ []))
AllApart-snoc [] a b h p = (p, tt)
AllApart-snoc (m ∷ ms) a b h p = (h.0, AllApart-snoc ms a b h.1 p)

swap-Apart : (a b : MmioMapBlock) → Apart a b → Apart b a
swap-Apart a b (inl h) = inr h
swap-Apart a b (inr h) = inl h

IsDisjoint-snoc :
    (ms : List MmioMapBlock) (b : MmioMapBlock)
    → IsDisjoint ms
    → IsRange b
    → AllApart b ms
    → IsDisjoint (ms ++ (b ∷ []))
IsDisjoint-snoc [] b d r h = (r, tt, tt)
IsDisjoint-snoc (m ∷ ms) b d r h =
    (d.0, AllApart-snoc ms m b d.1 (swap-Apart m b h.0), IsDisjoint-snoc ms b d.2 r h.1)

-- Mapping a nonempty range that does not reach the end of the address space keeps the devices'
-- ranges disjoint, whether it is accepted or refused.
pub add_mmio_map-IsDisjoint :
    (id start size : ℕ) (dev : Device) (bus : Bus)
    → IsDisjoint bus.mmio_maps
    → 0 < size
    → start + size < 2 ^ 64
    → IsDisjoint (add_mmio_map id start size dev bus).1.mmio_maps
unfolding add_mmio_map
add_mmio_map-IsDisjoint id start size dev bus d p q =
    elim (Bool-cases (overlaps_mmio bus.mmio_maps start size)) [
      | inl clash ↦ rw clash d
      | inr free ↦
          let b : MmioMapBlock = record { start = start; size = size; id = id; dev = dev } in
          let r : IsRange b = record { nonempty = p; no_wrap = q } in
          rw free
            (IsDisjoint-snoc bus.mmio_maps b d r (overlaps_mmio-AllApart bus.mmio_maps b d r free))
    ]

-- `m` is a member of the list.
abbrev pub IsIn : MmioMapBlock → List MmioMapBlock → Type 0
IsIn m [] = ⊥
IsIn m (b ∷ ms) = (m ≡ b) ⊎ IsIn m ms

AllApart-IsIn :
    (ms : List MmioMapBlock) (a m : MmioMapBlock) → AllApart a ms → IsIn m ms → Apart m a
AllApart-IsIn [] a m h i = absurd i
AllApart-IsIn (b ∷ ms) a m h (inl e) = rw e h.0
AllApart-IsIn (b ∷ ms) a m h (inr i) = AllApart-IsIn ms a m h.1 i

IsRange-IsIn : (ms : List MmioMapBlock) (m : MmioMapBlock) → IsDisjoint ms → IsIn m ms → IsRange m
IsRange-IsIn [] m d i = absurd i
IsRange-IsIn (b ∷ ms) m d (inl e) = rw e d.0
IsRange-IsIn (b ∷ ms) m d (inr i) = IsRange-IsIn ms m d.2 i

-- While the ranges are disjoint, the device that covers an access is the one that answers it,
-- whatever the order in which the devices were mapped.
pub match_mmio_unique :
    (ms : List MmioMapBlock) (addr size : ℕ) (m : MmioMapBlock)
    → IsDisjoint ms
    → IsIn m ms
    → 0 < size
    → m.start ≤ addr
    → addr + size ≤ m.start + m.size
    → match_mmio ms addr size ≡ some m
unfolding match_mmio mmio_in_range
match_mmio_unique [] addr size m d i p q r = absurd i
match_mmio_unique (b ∷ ms) addr size m d (inl e) p q r = let range : IsRange b = d.0 in ground arith
match_mmio_unique (b ∷ ms) addr size m d (inr i) p q r =
    let range : IsRange b = d.0 in
    let mine : IsRange m = IsRange-IsIn ms m d.2 i in
    let apart : Apart m b = AllApart-IsIn ms b m d.1 i in
    ground (arith, match_mmio_unique ms addr size m d.2 i p q r)

-- `add_memory_map` looks only at the two ends of the new range, so it accepts one that strictly
-- encloses a block that is there.
pub add_memory_map_encloses :
    (m : MemoryBlock) (start size : ℕ) (contents : ℕ → ℕ) (bus : Bus)
    → bus.memory_maps ≡ m ∷ []
    → start < m.start
    → m.end < start + size
    → start + size < 2 ^ 64
    → (add_memory_map start size contents bus).0 ≡ true
unfolding add_memory_map overlaps_memory in_range
add_memory_map_encloses m start size contents bus e p q r = ground arith

-- An access whose end wraps round the address space passes the range check of every block that
-- starts below it, though its first byte lies past the block's end.
pub in_range_wraps :
    (m : MemoryBlock) (addr length : ℕ)
    → m.start ≤ addr
    → m.end ≤ addr
    → 2 ^ 64 ≤ addr + length
    → addr + length ≤ m.end + 2 ^ 64
    → addr < 2 ^ 64
    → length < 2 ^ 64
    → in_range m addr length ≡ true
unfolding in_range
in_range_wraps m addr length p q r s t u = ground arith
