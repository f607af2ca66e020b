-- ===== src/Ring/Chain.antt =====
-- Chains of nodes joined in both directions, and rings.
use ninix.Ring.{Links}
use ninix.Base.{◌==◌, ℕ, ◌≡◌, refl, ◌∙◌, Bool, true, false, ◌||◌, List, [], ◌∷◌, ◌++◌, arith}

abbrev pub mem : ℕ → List ℕ → Bool
mem a [] = false
mem a (x ∷ xs) = (a == x) || mem a xs

infix 40 ◌∉◌
abbrev pub ◌∉◌ : ℕ → List ℕ → Type 0
a ∉ xs = mem a xs ≡ false

abbrev pub Distinct : List ℕ → Type 0
Distinct [] = Unit {0}
Distinct (x ∷ xs) = (x ∉ xs) × Distinct xs

pub mem-append : (a : ℕ) (xs ys : List ℕ) → mem a (xs ++ ys) ≡ (mem a xs || mem a ys)
mem-append a [] ys = refl
mem-append a (x ∷ xs) ys = ground (arith, mem-append a xs ys)

-- From `a` through `xs` to `b`, each `next` answered by a `prev`.
abbrev pub Chain : Links → ℕ → List ℕ → ℕ → Type 0
Chain m a [] b = (m.next a ≡ b) × (m.prev b ≡ a)
Chain m a (x ∷ xs) b = (m.next a ≡ x) × (m.prev x ≡ a) × Chain m x xs b

-- The ends are not among the inner nodes, which are all different. The ends may be one node.
pub record Apart (a : ℕ) (xs : List ℕ) (b : ℕ) : Type 0 where
  pub left : a ∉ xs
  pub right : b ∉ xs
  pub inner : Distinct xs

-- The list with the head `h` holds `xs`, first to last.
pub record Ring (m : Links) (h : ℕ) (xs : List ℕ) : Type 0 where
  pub chain : Chain m h xs h
  pub apart : Apart h xs h

-- The node before `b`, and the node behind `a`.
abbrev pub last : ℕ → List ℕ → ℕ
last a [] = a
last a (x ∷ xs) = last x xs

abbrev pub first : List ℕ → ℕ → ℕ
first [] b = b
first (x ∷ xs) b = x

pub mem-last : (a : ℕ) (xs : List ℕ) → mem (last a xs) (a ∷ xs) ≡ true
mem-last a [] = ground arith
mem-last a (x ∷ xs) = ground (arith, mem-last x xs)

pub next-first : (m : Links) (a : ℕ) (xs : List ℕ) (b : ℕ) → Chain m a xs b → m.next a ≡ first xs b
next-first m a [] b c = c.0
next-first m a (x ∷ xs) b c = c.0

pub prev-last : (m : Links) (a : ℕ) (xs : List ℕ) (b : ℕ) → Chain m a xs b → m.prev b ≡ last a xs
prev-last m a [] b c = c.1
prev-last m a (x ∷ xs) b c = prev-last m x xs b c.2

-- A chain survives a change elsewhere.
pub Chain-frame :
    (m n : Links) (a : ℕ) (xs : List ℕ) (b : ℕ)
    → Chain m a xs b
    → ((q : ℕ) → mem q (a ∷ xs) ≡ true → n.next q ≡ m.next q)
    → ((q : ℕ) → mem q (b ∷ xs) ≡ true → n.prev q ≡ m.prev q)
    → Chain n a xs b
Chain-frame m n a [] b c f g = (f a (ground arith) ∙ c.0, g b (ground arith) ∙ c.1)
Chain-frame m n a (x ∷ xs) b c f g = (
  f a (ground arith) ∙ c.0,
  g x (ground arith) ∙ c.1,
  Chain-frame m n x xs b c.2 (λ q h. f q (ground arith)) (λ q h. g q (ground arith)),
)

-- A chain is two chains that share a node.
pub Chain-split :
    (m : Links) (a : ℕ) (ys : List ℕ) (x : ℕ) (zs : List ℕ) (b : ℕ)
    → Chain m a (ys ++ x ∷ zs) b
    → Chain m a ys x × Chain m x zs b
Chain-split m a [] x zs b c = ((c.0, c.1), c.2)
Chain-split m a (y ∷ ys) x zs b c = let (l, r) = Chain-split m y ys x zs b c.2 in ((c.0, c.1, l), r)

pub Chain-join :
    (m : Links) (a : ℕ) (ys : List ℕ) (x : ℕ) (zs : List ℕ) (b : ℕ)
    → Chain m a ys x
    → Chain m x zs b
    → Chain m a (ys ++ x ∷ zs) b
Chain-join m a [] x zs b l r = (l.0, l.1, r)
Chain-join m a (y ∷ ys) x zs b l r = (l.0, l.1, Chain-join m y ys x zs b l.2 r)
