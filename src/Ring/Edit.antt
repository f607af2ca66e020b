-- ===== src/Ring/Edit.antt =====
-- One node put into a chain, or taken out of it, at any place.
use ninix.Ring.{Links, link_between, unlink_between}
use ninix.Ring.Chain.{
  mem, ◌∉◌, Distinct, mem-append, Chain, Apart, last, first, mem-last, Chain-frame,
}
use ninix.Base.{ℕ, ◌≡◌, true, List, [], ◌∷◌, ◌++◌, arith}

pub Distinct-append : (ys zs : List ℕ) → Distinct (ys ++ zs) → Distinct ys × Distinct zs
Distinct-append [] zs d = (tt, d)
Distinct-append (y ∷ ys) zs d =
    let (l, r) = Distinct-append ys zs d.1 in ((ground (arith, mem-append y ys zs, d.0), l), r)

pub mem-first : (b : ℕ) (zs : List ℕ) → mem (first zs b) (b ∷ zs) ≡ true
mem-first b [] = ground arith
mem-first b (z ∷ zs) = ground arith

-- `p` and `n` are the nodes on both sides, as the caller reads them.
pub Chain-link_between :
    (m : Links) (a : ℕ) (ys zs : List ℕ) (b new p n : ℕ)
    → p ≡ last a ys
    → n ≡ first zs b
    → Chain m a (ys ++ zs) b
    → Apart a (ys ++ zs) b
    → new ∉ (a ∷ b ∷ ys ++ zs)
    → Chain (link_between new p n m) a (ys ++ new ∷ zs) b
unfolding link_between
Chain-link_between m a [] [] b new p n ep en c d out = ground arith
Chain-link_between m a [] (z ∷ zs) b new p n ep en c d out = (
  ground arith,
  ground arith,
  (
    ground arith,
    ground arith,
    Chain-frame m _ z zs b c.2 (λ q h. ground (arith, d.left, d.inner.0))
        (λ q h. ground (arith, d.right, d.inner.0)),
  ),
)
Chain-link_between m a (y ∷ ys) zs b new p n ep en c d out = (
  ground (arith, mem-last y ys, mem-append a ys zs, d.left),
  ground (arith, mem-first b zs, mem-append y ys zs, d.inner.0, d.right),
  Chain-link_between m y ys zs b new p n ep en c.2
      (record { left = d.inner.0; right = ground (arith, d.right); inner = d.inner.1 })
      (ground arith),
)

pub Chain-unlink_between :
    (m : Links) (a : ℕ) (ys : List ℕ) (x : ℕ) (zs : List ℕ) (b p n : ℕ)
    → p ≡ last a ys
    → n ≡ first zs b
    → Chain m a (ys ++ x ∷ zs) b
    → Apart a (ys ++ x ∷ zs) b
    → Chain (unlink_between p n m) a (ys ++ zs) b
unfolding unlink_between
Chain-unlink_between m a [] x [] b p n ep en c d = ground arith
Chain-unlink_between m a [] x (z ∷ zs) b p n ep en c d = (
  ground arith,
  ground arith,
  Chain-frame m _ z zs b c.2.2 (λ q h. ground (arith, d.left))
      (λ q h. ground (arith, d.right, d.inner.1.0)),
)
Chain-unlink_between m a (y ∷ ys) x zs b p n ep en c d = (
  ground (arith, mem-last y ys, mem-append a ys (x ∷ zs), d.left),
  ground (arith, mem-first b zs, mem-append y ys (x ∷ zs), d.inner.0, d.right),
  Chain-unlink_between m y ys x zs b p n ep en c.2
      (record { left = d.inner.0; right = ground (arith, d.right); inner = d.inner.1 }),
)
