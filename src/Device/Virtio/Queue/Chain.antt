-- ===== src/Device/Virtio/Queue/Chain.antt =====
-- The fuel of the inner loop of notify_queue in virtio.cpp.
use kxemu.Base.Shared.{
  ℕ, zero, suc, ◌≤◌, ◌≡◌, refl, sym, ap, arith, true, false, List, [], ◌∷◌, some, Bool-cases,
  Option-cases, length, ◌⊎◌, inl, inr,
}
use kxemu.Base.Word.{has_bit}
use kxemu.Device.Bus.{Bus}
use kxemu.Device.Virtio.Queue.{
  Buffer, Descriptor, Stop, Outcome, returns, ends, from, ◌>->◌, descriptor, buffer_of, chain,
}

unwrap {ℓ} : {A : Type ℓ} (a b : A) → ◌≡◌ {A = Outcome A} (returns a) (returns b) → b ≡ a
unwrap a b h = sym (ap (λ o. elim o [ ends s ↦ a | returns x ↦ x ]) h)

Outcome-cases {ℓ} :
    {A : Type ℓ} (o : Outcome A) → ((s : Stop) × (o ≡ ends s)) ⊎ ((a : A) × (o ≡ returns a))
Outcome-cases (ends s) = inl (s, refl)
Outcome-cases (returns a) = inr (a, refl)

-- One turn of the loop over a chain that ends.
record IsTurn (n : ℕ) (bus : Bus) (p_desc : ℕ) (d : Descriptor) (buffers rest : List Buffer)
    : Type 0 where
  more : has_bit d.flags 0 ≡ true
  tail : chain n bus p_desc d.next ≡ returns rest
  whole : buffers ≡ buffer_of d ∷ rest

chain-IsTurn :
    (n : ℕ) (bus : Bus) (p_desc i : ℕ) (buffers : List Buffer)
    → chain (suc n) bus p_desc i ≡ returns buffers
    → (d : Descriptor) × (descriptor bus p_desc i ≡ some d)
      × (((has_bit d.flags 0 ≡ false) × (buffers ≡ buffer_of d ∷ []))
          ⊎ ((rest : List Buffer) × IsTurn n bus p_desc d buffers rest))
unfolding chain ◌>->◌ from
chain-IsTurn n bus p_desc i buffers h = elim (Option-cases (descriptor bus p_desc i)) [
  | inl p ↦ absurd (let e = rw (p, chain) at h in cc)
  | inr (d, p) ↦
      let e = rw (p, chain) at h in
      elim (Bool-cases (has_bit d.flags 0)) [
        | inr last ↦ (d, p, inl (last, unwrap (buffer_of d ∷ []) buffers (rw last at e)))
        | inl more ↦
            let f = rw more at e in
            elim (Outcome-cases (chain n bus p_desc d.next)) [
              | inl (s, q) ↦ absurd (let g = rw (q, chain) at f in cc)
              | inr (rest, q) ↦ (
                d,
                p,
                inr (
                  rest,
                  record {
                    more = more;
                    tail = q;
                    whole = unwrap (buffer_of d ∷ rest) buffers (rw (q, chain) at f);
                  },
                ),
              )
            ]
      ]
]

-- The loop over a chain that ends comes to the same buffers with any fuel that is not less than their number.
pub chain-length :
    (n m : ℕ) (bus : Bus) (p_desc i : ℕ) (buffers : List Buffer)
    → chain n bus p_desc i ≡ returns buffers
    → length buffers ≤ m
    → chain m bus p_desc i ≡ returns buffers
unfolding chain ◌>->◌ from
chain-length zero m bus p_desc i buffers h l = cc
chain-length (suc n) zero bus p_desc i buffers h l =
    let (d, p, cases) = chain-IsTurn n bus p_desc i buffers h in
    elim cases [
      | inl (last, e) ↦ absurd (omega (arith, ap length e))
      | inr (rest, t) ↦ absurd (omega (arith, ap length t.whole))
    ]
chain-length (suc n) (suc m) bus p_desc i buffers h l =
    let (d, p, cases) = chain-IsTurn n bus p_desc i buffers h in
    elim cases [
      | inl (last, e) ↦ rw (p, chain) (rw last (ap returns (sym e)))
      | inr (rest, t) ↦
          let shorter : length rest ≤ m = omega (arith, ap length t.whole) in
          let tail = chain-length n m bus p_desc d.next rest t.tail shorter in
          rw (p, chain) (rw (t.more) (rw (tail, chain) (ap returns (sym t.whole))))
    ]
