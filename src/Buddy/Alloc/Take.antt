-- ===== src/Buddy/Alloc/Take.antt =====
-- One block is taken off its list and split.
use ninix.Buddy.{Page, FreeList, Buddy, set_level, set_flag, forward, buddy_allocated}
use ninix.Buddy.Alloc.{split_block, take_block}
use ninix.Buddy.Alloc.Split.{weight, weight-inside, one_more, Ready, with_block, split_block-Spread}
use ninix.Utils.{pow}
use ninix.Base.{
  ltb, leb, ◌==◌, if◌then◌else◌, Bool-cases, update, length, ℕ, zero, suc, ◌+◌, ◌-◌, ◌*◌, ◌%◌, ◌^◌,
  ◌≤◌, ◌<◌, ◌≡◌, refl, ap, ◌∙◌, inl, inr, true, false, ◌&&◌, some, List, ◌∷◌, arith,
}

-- The five lists are set up, say how many blocks they hold, and have room; pages are words.
pub record Tidy (b : Buddy) : Type 0 where
  pub ready : (c : ℕ) → c < 5 → Ready (b.lists c)
  pub counted :
      (c : ℕ) (ps : List ℕ) → (b.lists c).free_head ≡ some ps → (b.lists c).nr_free ≡ length ps
  pub words : (c p : ℕ) (ps : List ℕ) → (b.lists c).free_head ≡ some (p ∷ ps) → p < 2 ^ 32

small_pow : (c : ℕ) → c ≤ 4 → pow 2 c ≡ 2 ^ c
unfolding pow
small_pow zero h = refl
small_pow (suc zero) h = refl
small_pow (suc (suc zero)) h = refl
small_pow (suc (suc (suc zero))) h = refl
small_pow (suc (suc (suc (suc zero)))) h = refl
small_pow (suc (suc (suc (suc (suc c))))) h = absurd (omega arith)

-- The page off its list, marked as handed out.
marked_off : (level clevel page : ℕ) → List ℕ → Buddy → Buddy
marked_off level clevel page rest b = set_flag page buddy_allocated (
    set_level page level (record b {
      lists = update b.lists clevel (record {
        nr_free = ((b.lists clevel).nr_free + 2 ^ 32 - 1) % 2 ^ 32;
        free_head = some rest;
      });
    }))

-- The free list `c` behind the hand-out of a block of `level`, which was the first of the list `from`, with
-- `ps` behind it: that list keeps the others and says how many they are; each list from `level` on and
-- below it has one more block, the half that the split at its level leaves; the others are as before.
abbrev pub list_behind : Buddy → (level from p : ℕ) → List ℕ → (c : ℕ) → FreeList
list_behind b level from p ps c =
    if from == c
    then record { nr_free = length ps; free_head = some ps }
    else if leb level c && ltb c from
    then with_block (forward p (2 ^ c)) (b.lists c)
    else b.lists c

-- A block of the list `from` that was split down to the level asked for.
pub record Left (b : Buddy) (level from p : ℕ) (ps : List ℕ) (b' : Buddy) : Type 0 where
  pub lists : (c : ℕ) → b'.lists c ≡ list_behind b level from p ps c
  pub marks :
      (c : ℕ)
      → level ≤ c
      → c < from
      → ((b'.pages (forward p (2 ^ c))).flag ≡ 0) × ((b'.pages (forward p (2 ^ c))).bplevel ≡ c)
  pub total : weight 5 b'.lists + 2 ^ level ≡ weight 5 b.lists
  pub flag : (b'.pages p).flag ≡ 2 ^ 30
  pub bplevel : (b'.pages p).bplevel ≡ level
  pub lock : b'.lock ≡ b.lock

take_block-split :
    (b : Buddy) (level n p : ℕ) (ps : List ℕ)
    → level + n ≤ 4
    → take_block level (level + n) p ps b
      ≡ split_block n p (level + n) (2 ^ (level + n)) (marked_off level (level + n) p ps b)
unfolding take_block marked_off
take_block-split b level n p ps le =
    let e : level + n - level ≡ n = omega arith in rw (e, small_pow (level + n) le) refl

page-marked_off :
    (b : Buddy) (level clevel p : ℕ) (ps : List ℕ)
    → let b₁ = marked_off level clevel p ps b in
      ((b₁.pages p).flag ≡ 2 ^ 30) × ((b₁.pages p).bplevel ≡ level) × (b₁.lock ≡ b.lock)
unfolding marked_off
page-marked_off b level clevel p ps =
    let self : (p == p) ≡ true = ground arith in (rw self refl, rw self refl, refl)

Ready-marked_off :
    (b : Buddy) (level clevel p : ℕ) (ps : List ℕ)
    → Tidy b
    → clevel ≤ 4
    → (c : ℕ) → c < clevel
    → Ready ((marked_off level clevel p ps b).lists c)
unfolding marked_off
Ready-marked_off b level clevel p ps t le c lt =
    let apart : (clevel == c) ≡ false = ground arith in rw apart (t.ready c (omega arith))

lists-marked_off :
    (b : Buddy) (level clevel p : ℕ) (ps : List ℕ)
    → Tidy b
    → clevel ≤ 4
    → (b.lists clevel).free_head ≡ some (p ∷ ps)
    → (marked_off level clevel p ps b).lists
      ≡ update b.lists clevel (record { nr_free = length ps; free_head = some ps })
unfolding marked_off
lists-marked_off b level clevel p ps t le h =
    let nr = (b.lists clevel).nr_free in
    let r = t.ready clevel (omega arith) in
    let n : nr ≡ suc (length ps) = t.counted clevel (p ∷ ps) h in
    let e : (nr + 2 ^ 32 - 1) % 2 ^ 32 ≡ length ps = omega (arith, n, r.room) in
    ap (λ k. update b.lists clevel (record { nr_free = k; free_head = some ps })) e

behind_lem :
    (b : Buddy) (level from p : ℕ) (ps : List ℕ) (c : ℕ)
    → let l = update b.lists from (record { nr_free = length ps; free_head = some ps }) in
      (if leb level c && ltb c from then with_block (forward p (2 ^ c)) (l c) else l c)
      ≡ list_behind b level from p ps c
behind_lem b level from p ps c = elim (Bool-cases (from == c)) [
  | inl e ↦ let f : (leb level c && ltb c from) ≡ false = ground arith in rw (e, f) refl
  | inr e ↦ rw e refl
]

weight-marked_off :
    (b : Buddy) (level clevel p : ℕ) (ps : List ℕ)
    → Tidy b
    → clevel ≤ 4
    → (b.lists clevel).free_head ≡ some (p ∷ ps)
    → weight 5 (marked_off level clevel p ps b).lists + 2 ^ clevel ≡ weight 5 b.lists
unfolding marked_off
weight-marked_off b level clevel p ps t le h =
    let nr = (b.lists clevel).nr_free in
    let x : FreeList = record { nr_free = (nr + 2 ^ 32 - 1) % 2 ^ 32; free_head = some ps } in
    let r = t.ready clevel (omega arith) in
    let n : nr ≡ suc (length ps) = t.counted clevel (p ∷ ps) h in
    let e : nr ≡ (nr + 2 ^ 32 - 1) % 2 ^ 32 + 1 = omega (arith, n, r.room) in
    omega (
      arith,
      weight-inside clevel b.lists x (omega arith),
      ap (λ (a : ℕ). a * 2 ^ clevel) e,
      one_more ((nr + 2 ^ 32 - 1) % 2 ^ 32) (2 ^ clevel),
    )

pub take_block-Left :
    (b : Buddy) (level n p : ℕ) (ps : List ℕ)
    → Tidy b
    → level + n ≤ 4
    → (b.lists (level + n)).free_head ≡ some (p ∷ ps)
    → (b' : Buddy) × (take_block level (level + n) p ps b ≡ some b')
      × Left b level (level + n) p ps b'
take_block-Left b level n p ps t le h =
    let b₁ = marked_off level (level + n) p ps b in
    let (b', f, s) =
      split_block-Spread n level p b₁ le (t.words (level + n) p ps h)
        (Ready-marked_off b level (level + n) p ps t le) in
    let (flag, bplevel, lock) = page-marked_off b level (level + n) p ps in
    (
      b',
      take_block-split b level n p ps le ∙ f,
      record {
        lists = λ c.
            s.lists c
            ∙ rw (lists-marked_off b level (level + n) p ps t le h)
                (behind_lem b level (level + n) p ps c);
        marks = s.marks;
        total = omega (arith, s.total, weight-marked_off b level (level + n) p ps t le h);
        flag = ap (λ (g : Page). g.flag) s.page ∙ flag;
        bplevel = ap (λ (g : Page). g.bplevel) s.page ∙ bplevel;
        lock = s.lock ∙ lock;
      },
    )
