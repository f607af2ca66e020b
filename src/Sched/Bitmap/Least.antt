-- ===== src/Sched/Bitmap/Least.antt =====
-- `highest_prio` stays the least priority in the bitmap.
use ninix.Bits.{bit, bit-le, eq_zero_of_bits, bit_zero}
use ninix.Bits.Byte.{byte_test}
use ninix.Bits.Map.{bit_at}
use ninix.Sched.State.{PrioArray}
use ninix.Sched.Bitmap.{find_byte, find_off, rescan}
use ninix.Base.{
  ◌==◌, Bool-cases, ℕ, zero, suc, ◌+◌, ◌-◌, ◌*◌, ◌/◌, ◌%◌, ◌^◌, ◌≤◌, ◌<◌, bit_and, ◌≡◌, refl, ◌∙◌,
  ◌≢◌, inl, inr, true, false, Option, none, some, arith, dec_lt,
}

-- `h` is the least priority whose bit is set, 64 if there is none.
pub record Least (m : ℕ → ℕ) (h : ℕ) : Type 0 where
  pub bytes : (i : ℕ) → m i < 256
  pub bound : h ≤ 64
  pub below : (i : ℕ) → i < h → bit_at m i ≡ 0
  pub there : h < 64 → bit_at m h ≡ 1

record FoundByte (m : ℕ → ℕ) (i r : ℕ) : Type 0 where
  range : (i ≤ r) × (r ≤ 8)
  zeros : (j : ℕ) → i ≤ j → j < r → m j ≡ 0
  hit : r < 8 → m r ≢ 0

find_byte_lem : (n i : ℕ) (m : ℕ → ℕ) → i + n ≡ 8 → FoundByte m i (find_byte n i m)
unfolding find_byte
find_byte_lem zero i m e = record {
  range = omega arith;
  zeros = λ j lo hi. absurd (omega arith);
  hit = λ lt. absurd (omega arith);
}
find_byte_lem (suc n) i m e = elim (Bool-cases (m i == 0)) [
  | inl z ↦
      let f = find_byte_lem n (i + 1) m (omega arith) in
      rw z (record {
        range = omega (arith, f.range);
        zeros = λ j lo hi. elim (Bool-cases (i == j)) [
          | inl q ↦ ground arith
          | inr q ↦ f.zeros j (ground arith) hi
        ];
        hit = f.hit;
      })
  | inr z ↦ rw z (record {
    range = omega arith;
    zeros = λ j lo hi. absurd (omega arith);
    hit = λ lt. ground arith;
  })
]

-- A lowest bit is found, or there is none.
abbrev FoundOff : ℕ → ℕ → Option ℕ → Type 0
FoundOff byte o none = (k : ℕ) → o ≤ k → k < 8 → bit byte k ≡ 0
FoundOff byte o (some r) = (r < 8) × (bit byte r ≡ 1) × ((k : ℕ) → o ≤ k → k < r → bit byte k ≡ 0)

find_off_lem : (n o byte : ℕ) → o + n ≡ 8 → FoundOff byte o (find_off n o byte)
unfolding find_off
find_off_lem zero o byte e = λ k lo hi. absurd (omega arith)
find_off_lem (suc n) o byte e = elim (Bool-cases (bit byte o == 0)) [
  | inl z ↦
      let t : (bit_and byte (2 ^ o) == 0) ≡ true = byte_test byte o ∙ z in
      rw t
        (widen (find_off n (o + 1) byte) (ground arith) (find_off_lem n (o + 1) byte (omega arith)))
  | inr z ↦
      let t : (bit_and byte (2 ^ o) == 0) ≡ false = byte_test byte o ∙ z in
      rw t (omega arith, ground (arith, bit-le byte o), λ k lo hi. absurd (omega arith))
]
  where
    step :
        bit byte o ≡ 0
        → (r : ℕ) → ((k : ℕ) → o + 1 ≤ k → k < r → bit byte k ≡ 0)
        → (k : ℕ) → o ≤ k
        → k < r
        → bit byte k ≡ 0
    step z r h k lo hi = elim (Bool-cases (o == k)) [
      | inl q ↦ ground arith
      | inr q ↦ h k (ground arith) hi
    ]

    widen : (x : Option ℕ) → bit byte o ≡ 0 → FoundOff byte (o + 1) x → FoundOff byte o x
    widen none z h = step z 8 h
    widen (some r) z (lt, hit, h) = (lt, hit, step z r h)

abbrev pub IsClearBelow : (ℕ → ℕ) → ℕ → Type 0
IsClearBelow m p = (i : ℕ) → i < p → bit_at m i ≡ 0

module _ (a : PrioArray) (p : ℕ) where
  -- No bit in the bytes that the scan has passed.
  passed :
      IsClearBelow a.bitmap p
      → {r : ℕ} → FoundByte a.bitmap (p / 8) r
      → (i : ℕ) → i / 8 < r
      → bit_at a.bitmap i ≡ 0
  passed low f i lt = elim (dec_lt i p) [
    | yes h ↦ low i h
    | no h ↦ rw (f.zeros (i / 8) (omega arith) lt) (bit_zero (i % 8))
  ]

  -- The state that `rescan` leaves when the scan for a byte has stopped at `r`.
  abbrev pub Rescanned : PrioArray → Type 0
  Rescanned b = Least a.bitmap b.highest_prio × (b ≡ record a { highest_prio = b.highest_prio })

  low_bit :
      ((i : ℕ) → a.bitmap i < 256)
      → IsClearBelow a.bitmap p
      → {r : ℕ} → FoundByte a.bitmap (p / 8) r
      → r < 8
      → (x : Option ℕ) → FoundOff (a.bitmap r) 0 x
      → Rescanned (elim x [ none ↦ a | some off ↦ record a { highest_prio = r * 8 + off } ])
  low_bit bytes low {r} f lt none z =
      absurd (f.hit lt (eq_zero_of_bits 8 (a.bitmap r) (bytes r) (λ k h. z k (omega arith) h)))
  low_bit bytes low {r} f lt (some o) z = (
    record {
      bytes = bytes;
      bound = omega arith;
      below = λ i h. elim (dec_lt (i / 8) r) [
        | yes q ↦ passed low f i q
        | no q ↦ let e : i / 8 ≡ r = omega arith in rw e (z.2 (i % 8) (omega arith) (omega arith))
      ];
      there = λ h.
          let e : (r * 8 + o) / 8 ≡ r = omega arith in
          let e' : (r * 8 + o) % 8 ≡ o = omega arith in rw (e, e') z.1;
    },
    refl,
  )

  pub rescan-Least :
      ((i : ℕ) → a.bitmap i < 256) → p < 64 → IsClearBelow a.bitmap p → Rescanned (rescan p a)
  unfolding rescan
  rescan-Least bytes lt low =
      let r = find_byte (8 - p / 8) (p / 8) a.bitmap in
      let f = find_byte_lem (8 - p / 8) (p / 8) a.bitmap (omega arith) in
      elim (Bool-cases (r == 8)) [
        | inl e ↦ rw e (
          record {
            bytes = bytes;
            bound = omega arith;
            below = λ i h. passed low f i (ground arith);
            there = λ h. absurd (omega arith);
          },
          refl,
        )
        | inr e ↦ rw e (
            low_bit bytes low f (ground (arith, f.range)) (find_off 8 0 (a.bitmap r))
              (find_off_lem 8 0 (a.bitmap r) (omega arith)))
      ]
