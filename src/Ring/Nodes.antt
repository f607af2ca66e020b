-- ===== src/Ring/Nodes.antt =====
-- A ring as the list of its nodes: a node is taken off, and how often it is there.
use ninix.Base.{
  ◌==◌, if◌then◌else◌, length, ℕ, ◌+◌, ◌≡◌, refl, sym, ap, ◌∙◌, ◌≢◌, true, false, List, [], ◌∷◌,
  ◌++◌, arith, ℕ_discrete,
}

-- `list_del_init` of the node of `p`, whichever list it is on.
unfoldable pub unlink : ℕ → List ℕ → List ℕ
unlink p [] = []
unlink p (x ∷ xs) = if p == x then unlink p xs else x ∷ unlink p xs

-- How often `p` is on a list.
unfoldable pub count : ℕ → List ℕ → ℕ
count p [] = 0
count p (x ∷ xs) = (if p == x then 1 else 0) + count p xs

pub unlink-absent : (p : ℕ) (xs : List ℕ) → count p xs ≡ 0 → unlink p xs ≡ xs
unfolding count unlink
unlink-absent p [] h = refl
unlink-absent p (x ∷ xs) h = ground (arith, unlink-absent p xs)

pub length-unlink : (p : ℕ) (xs : List ℕ) → length (unlink p xs) + count p xs ≡ length xs
unfolding count unlink
length-unlink p [] = refl
length-unlink p (x ∷ xs) = ground (arith, length-unlink p xs)

pub count-unlink : (p : ℕ) (xs : List ℕ) → count p (unlink p xs) ≡ 0
unfolding count unlink
count-unlink p [] = refl
count-unlink p (x ∷ xs) = ground (arith, count-unlink p xs)

count-unlink_ne : (p q : ℕ) (xs : List ℕ) → p ≢ q → count q (unlink p xs) ≡ count q xs
unfolding count unlink
count-unlink_ne p q [] h = refl
count-unlink_ne p q (x ∷ xs) h = ground (arith, count-unlink_ne p q xs h)

pub count-append : (p : ℕ) (xs ys : List ℕ) → count p (xs ++ ys) ≡ count p xs + count p ys
unfolding count
count-append p [] ys = omega arith
count-append p (x ∷ xs) ys = omega (arith, count-append p xs ys)

pub count-unlink_if :
    (p q : ℕ) (xs : List ℕ) → count q (unlink p xs) ≡ (if p == q then 0 else count q xs)
count-unlink_if p q xs = elim (ℕ_discrete p q) [
  | yes e ↦ let t : (p == q) ≡ true = ground arith in rw (t, ← e) (count-unlink p xs)
  | no e ↦ let t : (p == q) ≡ false = ground arith in rw t (count-unlink_ne p q xs e)
]

pub count-snoc :
    (p q : ℕ) (xs : List ℕ) → count q (xs ++ p ∷ []) ≡ count q xs + (if p == q then 1 else 0)
unfolding count
count-snoc p q xs = ground (arith, count-append q xs (p ∷ []))

-- A node that goes to the end.
pub count-used :
    (p q : ℕ) (xs : List ℕ) → count p xs ≡ 1 → count q (unlink p xs ++ p ∷ []) ≡ count q xs
count-used p q xs h = elim (ℕ_discrete p q) [
  | yes e ↦
      let h' : count q xs ≡ 1 = ap (λ r. count r xs) (sym e) ∙ h in
      ground (arith, count-snoc p q (unlink p xs), count-unlink_if p q xs)
  | no e ↦ ground (arith, count-snoc p q (unlink p xs), count-unlink_if p q xs)
]
