-- ===== src/Buddy/Alloc/Split.antt =====
-- A block that is split on its way to an allocation: where the halves go, and that no page is lost.
use native.Mathlib.Nat.{pow-suc}
use ninix.Buddy.{Page, FreeList, Buddy, set_level, set_flag, forward, put_block, buddy_free}
use ninix.Buddy.Alloc.{split_block}
use ninix.Base.{
  ltb, leb, ◌==◌, if◌then◌else◌, update, ℕ, zero, suc, ◌+◌, ◌-◌, ◌*◌, ◌/◌, ◌%◌, ◌^◌, ◌≤◌, ◌<◌, ◌≡◌,
  refl, ap, subst, ◌∙◌, ◌≢◌, true, false, ◌&&◌, none, some, List, ◌∷◌, arith, ℕ_discrete,
}

-- The pages of the first `n` free lists.
unfoldable pub weight : ℕ → (ℕ → FreeList) → ℕ
weight zero l = 0
weight (suc n) l = (l n).nr_free * 2 ^ n + weight n l

pub weight-update :
    (n c : ℕ) (l : ℕ → FreeList) (x : FreeList)
    → weight n (update l c x) + (if ltb c n then (l c).nr_free * 2 ^ c else 0)
      ≡ weight n l + (if ltb c n then x.nr_free * 2 ^ c else 0)
unfolding weight
weight-update zero c l x = ground arith
weight-update (suc n) c l x = ground (arith, weight-update n c l x)

next : (k n : ℕ) → k + suc n ≡ suc (k + n)
next k n = omega arith

pub one_more : (a t : ℕ) → (a + 1) * t ≡ a * t + t
one_more a t = omega arith

pub weight-inside :
    (j : ℕ) (l : ℕ → FreeList) (x : FreeList)
    → j < 5
    → weight 5 (update l j x) + (l j).nr_free * 2 ^ j ≡ weight 5 l + x.nr_free * 2 ^ j
weight-inside j l x lt =
    let below : ltb j 5 ≡ true = ground arith in
    let u = weight-update 5 j l x in
    subst
      (λ t.
        weight 5 (update l j x) + (if t then (l j).nr_free * 2 ^ j else 0)
        ≡ weight 5 l + (if t then x.nr_free * 2 ^ j else 0))
      below u

weight-put :
    (j : ℕ) (l : ℕ → FreeList) (x : FreeList)
    → j < 5
    → x.nr_free ≡ (l j).nr_free + 1
    → weight 5 (update l j x) ≡ weight 5 l + 2 ^ j
weight-put j l x lt e =
    omega
      (arith, weight-inside j l x lt, ap (λ (a : ℕ). a * 2 ^ j) e, one_more (l j).nr_free (2 ^ j))

doubled :
    (k n w w₁ w' : ℕ)
    → w' + 2 ^ k ≡ w₁ + 2 ^ (k + n)
    → w₁ ≡ w + 2 ^ (k + n)
    → w' + 2 ^ k ≡ w + 2 ^ (k + suc n)
doubled k n w w₁ w' e f = rw (next k n) (omega (arith, e, f, pow-suc 2 (k + n)))

-- A list that can take a block: it is set up and its count has room.
pub record Ready (l : FreeList) : Type 0 where
  pub ps : List ℕ
  pub head : l.free_head ≡ some ps
  pub room : l.nr_free + 1 < 2 ^ 32

-- The list with one more block in front.
abbrev pub with_block : ℕ → FreeList → FreeList
with_block p l = record {
  nr_free = l.nr_free + 1;
  free_head = elim l.free_head [ none ↦ none | some ps ↦ some (p ∷ ps) ];
}

put_block-Ready :
    (p c : ℕ) (b : Buddy)
    → Ready (b.lists c)
    → put_block p c b ≡ some (record b { lists = update b.lists c (with_block p (b.lists c)) })
unfolding put_block
put_block-Ready p c b r =
    let n : ((b.lists c).nr_free + 1) % 2 ^ 32 ≡ (b.lists c).nr_free + 1 = omega (arith, r.room) in
    rw (r.head, put_block) (rw n refl)

-- The blocks `p + 2 ^ c` for the levels from `k` up to `j` have come to the lists of their levels.
pub record Spread (p k j : ℕ) (b b' : Buddy) : Type 0 where
  pub lists :
      (c : ℕ)
      → b'.lists c
        ≡ (if leb k c && ltb c j then with_block (forward p (2 ^ c)) (b.lists c) else b.lists c)
  pub total : weight 5 b'.lists + 2 ^ k ≡ weight 5 b.lists + 2 ^ j
  pub page : b'.pages p ≡ b.pages p
  pub marks :
      (c : ℕ)
      → k ≤ c
      → c < j
      → ((b'.pages (forward p (2 ^ c))).flag ≡ buddy_free)
        × ((b'.pages (forward p (2 ^ c))).bplevel ≡ c)
  pub others : (q : ℕ) → ((c : ℕ) → k ≤ c → c < j → forward p (2 ^ c) ≢ q) → b'.pages q ≡ b.pages q
  pub lock : b'.lock ≡ b.lock

pub small_power : (j : ℕ) → j ≤ 4 → (1 ≤ 2 ^ j) × (2 ^ j ≤ 16)
small_power zero h = (omega arith, omega arith)
small_power (suc zero) h = (omega arith, omega arith)
small_power (suc (suc zero)) h = (omega arith, omega arith)
small_power (suc (suc (suc zero))) h = (omega arith, omega arith)
small_power (suc (suc (suc (suc zero)))) h = (omega arith, omega arith)
small_power (suc (suc (suc (suc (suc j))))) h = absurd (omega arith)

power_up : (c j : ℕ) → c < j → j ≤ 4 → 2 ^ c < 2 ^ j
power_up c zero h le = absurd (omega arith)
power_up c (suc j) h le = elim (ℕ_discrete c j) [
  | yes e ↦ rw e (omega (arith, pow-suc 2 j, small_power j (omega arith)))
  | no n ↦ omega (arith, pow-suc 2 j, power_up c j (omega arith) (omega arith))
]

apart_halves : (p c j : ℕ) → p < 2 ^ 32 → c < j → j ≤ 4 → forward p (2 ^ c) ≢ forward p (2 ^ j)
apart_halves p c j small h le e =
    omega (arith, e, power_up c j h le, small_power j le, small_power c (omega arith))

-- One round of the loop, at the level `j` below.
halved_block : (p j : ℕ) → Buddy → Buddy
halved_block p j b =
    let q = forward p (2 ^ j) in
    set_level q j
      (set_flag q buddy_free (record b { lists = update b.lists j (with_block q (b.lists j)) }))

lists-halved_block :
    (p j : ℕ) (b : Buddy)
    → (halved_block p j b).lists ≡ update b.lists j (with_block (forward p (2 ^ j)) (b.lists j))
unfolding halved_block
lists-halved_block p j b = refl

pages-halved_block :
    (p j : ℕ) (b : Buddy)
    → j ≤ 4
    → p < 2 ^ 32
    → ((halved_block p j b).pages p ≡ b.pages p) × ((halved_block p j b).lock ≡ b.lock)
unfolding halved_block
pages-halved_block p j b le small =
    let e : (forward p (2 ^ j) == p) ≡ false = ground (arith, small_power j le) in (rw e refl, refl)

marks-halved_block :
    (p j : ℕ) (b : Buddy)
    → let b₁ = halved_block p j b in
      ((b₁.pages (forward p (2 ^ j))).flag ≡ buddy_free)
      × ((b₁.pages (forward p (2 ^ j))).bplevel ≡ j)
      × ((q : ℕ) → forward p (2 ^ j) ≢ q → b₁.pages q ≡ b.pages q)
unfolding halved_block
marks-halved_block p j b =
    let self : (forward p (2 ^ j) == forward p (2 ^ j)) ≡ true = ground arith in
    (
      rw self refl,
      rw self refl,
      λ q n. let e : (forward p (2 ^ j) == q) ≡ false = ground arith in rw e refl,
    )

split_block-halved :
    (n k p : ℕ) (b : Buddy)
    → Ready (b.lists (k + n))
    → split_block (suc n) p (k + suc n) (2 ^ (k + suc n)) b
      ≡ split_block n p (k + n) (2 ^ (k + n)) (halved_block p (k + n) b)
unfolding split_block halved_block
split_block-halved n k p b r =
    let e₁ : k + suc n - 1 ≡ k + n = omega arith in
    let e₂ : 2 ^ (k + suc n) / 2 ≡ 2 ^ (k + n) = rw (next k n) (omega (arith, pow-suc 2 (k + n))) in
    rw (e₁, e₂) (rw (put_block-Ready (forward p (2 ^ (k + n))) (k + n) b r) refl)

split_block-zero : (p clevel size : ℕ) (b : Buddy) → split_block zero p clevel size b ≡ some b
unfolding split_block
split_block-zero p clevel size b = refl

pub split_block-Spread :
    (n k p : ℕ) (b : Buddy)
    → k + n ≤ 4
    → p < 2 ^ 32
    → ((c : ℕ) → c < k + n → Ready (b.lists c))
    → (b' : Buddy) × (split_block n p (k + n) (2 ^ (k + n)) b ≡ some b') × Spread p k (k + n) b b'
split_block-Spread zero k p b le small ready = (
  b,
  split_block-zero p (k + 0) (2 ^ (k + 0)) b,
  record {
    lists = λ c. ground arith;
    total = ground arith;
    page = refl;
    marks = λ c lo hi. absurd (omega arith);
    others = λ q n. refl;
    lock = refl;
  },
)
split_block-Spread (suc n) k p b le small ready =
    let j = k + n in
    let b₁ = halved_block p j b in
    let l = lists-halved_block p j b in
    let (same, locked) = pages-halved_block p j b (omega arith) small in
    let still : (c : ℕ)
        → c < j
        → Ready (update b.lists j (with_block (forward p (2 ^ j)) (b.lists j)) c) =
      λ c lt. let apart : (j == c) ≡ false = ground arith in rw apart (ready c (omega arith)) in
    let (flag, level, rest) = marks-halved_block p j b in
    let (b', e, s) = split_block-Spread n k p b₁ (omega arith) small (λ c lt. rw l (still c lt)) in
    let untouched =
      s.others (forward p (2 ^ j)) (λ c lo hi. apart_halves p c j small hi (omega arith)) in
    (
      b',
      split_block-halved n k p b (ready j (omega arith)) ∙ e,
      record {
        lists = λ c. ground (arith, s.lists c, l);
        total = doubled k n _ _ _ s.total (rw l (weight-put j b.lists _ (omega arith) refl));
        page = s.page ∙ same;
        marks = λ c lo hi. elim (ℕ_discrete j c) [
          | yes y ↦
              subst
                (λ x.
                  ((b'.pages (forward p (2 ^ x))).flag ≡ buddy_free)
                  × ((b'.pages (forward p (2 ^ x))).bplevel ≡ x))
                y
                (
                  ap (λ (g : Page). g.flag) untouched ∙ flag,
                  ap (λ (g : Page). g.bplevel) untouched ∙ level,
                )
          | no n' ↦ s.marks c lo (omega arith)
        ];
        others = λ q f.
            s.others q (λ c lo hi. f c lo (omega arith)) ∙ rest q (f j (omega arith) (omega arith));
        lock = s.lock ∙ locked;
      },
    )
