-- ===== src/Slab/Classes.antt =====
-- Which cache `get_slab` picks for a size.
use ninix.Slab.{KmemCache, Slab, init_slab}
use ninix.Slab.Kmalloc.{best_slab, get_slab}
use native.Mathlib.Nat.{le_of_lt, lt_of_le_of_lt}
use ninix.Base.{
  leb, Bool-cases, ℕ, zero, suc, ◌+◌, ◌≤◌, ◌<◌, ◌≡◌, refl, sym, subst, inl, inr, false, ◌&&◌, arith,
  ℕ_discrete,
}

-- The answer `r` of the search through `rounds` caches from `i` on, for sizes up to `num`.
data Best (caches : ℕ → KmemCache) (size num index i rounds r : ℕ) : Type 0 where
  picked :
      i ≤ r
      → r < i + rounds
      → size ≤ (caches r).objsize
      → (caches r).objsize ≤ num
      → ((j : ℕ)
          → i ≤ j
          → j < i + rounds
          → size ≤ (caches j).objsize
          → (caches r).objsize ≤ (caches j).objsize)
      → Best caches size num index i rounds r
  left_out :
      r ≡ index
      → ((j : ℕ) → i ≤ j → j < i + rounds → size ≤ (caches j).objsize → num < (caches j).objsize)
      → Best caches size num index i rounds r

too_large : (a size num : ℕ) → (leb size a && leb a num) ≡ false → size ≤ a → num < a
too_large a size num e h = ground arith

module _ (caches : ℕ → KmemCache) (size num index i rounds : ℕ) where
  -- Cache `i` fits.
  fits_better :
      {r : ℕ}
      → size ≤ (caches i).objsize
      → (caches i).objsize ≤ num
      → Best caches size (caches i).objsize i (i + 1) rounds r
      → Best caches size num index i (suc rounds) r
  fits_better {r} f g (picked a b c d h) =
      picked (omega arith) (omega arith) c (omega arith) (λ j x y z. elim (ℕ_discrete i j) [
        | yes q ↦ subst (λ k. (caches r).objsize ≤ (caches k).objsize) q d
        | no q ↦ h j (omega arith) (omega arith) z
      ])
  fits_better {r} f g (left_out e h) =
      subst (λ k. Best caches size num index i (suc rounds) k) (sym e)
        (picked (omega arith) (omega arith) f g (λ j x y z. elim (ℕ_discrete i j) [
          | yes q ↦ subst (λ k. (caches i).objsize ≤ (caches k).objsize) q (omega arith)
          | no q ↦ le_of_lt (h j (omega arith) (omega arith) z)
        ]))

  -- It does not.
  passed :
      {r : ℕ}
      → (leb size (caches i).objsize && leb (caches i).objsize num) ≡ false
      → Best caches size num index (i + 1) rounds r
      → Best caches size num index i (suc rounds) r
  passed {r} e (picked a b c d h) = picked (omega arith) (omega arith) c d (λ j x y z.
      elim (ℕ_discrete i j) [
        | yes q ↦
            subst (λ k. (caches r).objsize ≤ (caches k).objsize) q
              (le_of_lt (lt_of_le_of_lt d (too_large _ size num e (rw q z))))
        | no q ↦ h j (omega arith) (omega arith) z
      ])
  passed e (left_out f h) = left_out f (λ j x y z. elim (ℕ_discrete i j) [
    | yes q ↦ subst (λ k. num < (caches k).objsize) q (too_large _ size num e (rw q z))
    | no q ↦ h j (omega arith) (omega arith) z
  ])

best_slab_lem :
    (rounds i size num index : ℕ) (caches : ℕ → KmemCache)
    → Best caches size num index i rounds (best_slab rounds i size num index caches)
unfolding best_slab
best_slab_lem zero i size num index caches = left_out refl (λ j x y. absurd (omega arith))
best_slab_lem (suc rounds) i size num index caches =
    elim (Bool-cases (leb size (caches i).objsize && leb (caches i).objsize num)) [
      | inl e ↦ rw e (
          fits_better caches size num index i rounds (ground arith) (ground arith)
            (best_slab_lem rounds (i + 1) size (caches i).objsize i caches))
      | inr e ↦ rw e (
          passed caches size num index i rounds e
            (best_slab_lem rounds (i + 1) size num index caches))
    ]

last_class : (s : Slab) → ((init_slab s).caches 11).objsize ≡ 2048
unfolding init_slab
last_class s = refl

-- After `init_slab`, for a size up to 2048, `get_slab` answers a cache whose objects are large enough,
-- and no cache with smaller objects would do.
pub get_slab-init_slab :
    (size : ℕ) (s : Slab)
    → size ≤ 2048
    → let t = init_slab s in
      let k = get_slab size t in
      (k < 12)
      × (size ≤ (t.caches k).objsize)
      × ((j : ℕ)
          → j < 12
          → size ≤ (t.caches j).objsize
          → (t.caches k).objsize ≤ (t.caches j).objsize)
unfolding get_slab
get_slab-init_slab size s h = go (best_slab_lem 12 0 size 2048 12 (init_slab s).caches)
  where
    go :
        {k : ℕ}
        → Best (init_slab s).caches size 2048 12 0 12 k
        → (k < 12)
          × (size ≤ ((init_slab s).caches k).objsize)
          × ((j : ℕ)
              → j < 12
              → size ≤ ((init_slab s).caches j).objsize
              → ((init_slab s).caches k).objsize ≤ ((init_slab s).caches j).objsize)
    go (picked a b c d f) = (omega arith, c, λ j x z. f j (omega arith) (omega arith) z)
    go (left_out e f) =
        absurd (omega (arith, last_class s, f 11 (omega arith) (omega arith) (rw (last_class s) h)))
