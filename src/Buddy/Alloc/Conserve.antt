-- ===== src/Buddy/Alloc/Conserve.antt =====
-- `__alloc_pages` hands out one block and loses no page.
use ninix.Lock.{lockup, unlock}
use ninix.Buddy.{Buddy, forward}
use ninix.Buddy.Alloc.{take_block, search_level, alloc_block}
use ninix.Buddy.Alloc.Split.{weight}
use ninix.Base.{
  leb, if◌then◌else◌, ℕ, zero, suc, ◌+◌, ◌-◌, ◌^◌, ◌≤◌, ◌<◌, ◌≡◌, refl, ap, subst, ◌∙◌, ◌&&◌,
  Option, none, some, List, [], ◌∷◌, arith, ℕ_discrete,
}
use ninix.Buddy.Alloc.Take.{Tidy, list_behind, take_block-Left}

-- What a search from `clevel` on hands out: the first page of the first list with a block, from where
-- it is split, marked with the level asked for.
pub record Handed (b : Buddy) (level clevel p : ℕ) (b' : Buddy) : Type 0 where
  pub from : ℕ
  pub rest : List ℕ
  pub range : (level ≤ from) × (from ≤ 4)
  pub first : (b.lists from).free_head ≡ some (p ∷ rest)
  pub skipped : (c : ℕ) → clevel ≤ c → c < from → (b.lists c).free_head ≡ some []
  pub lists : (c : ℕ) → b'.lists c ≡ list_behind b level from p rest c
  pub marks :
      (c : ℕ)
      → level ≤ c
      → c < from
      → ((b'.pages (forward p (2 ^ c))).flag ≡ 0) × ((b'.pages (forward p (2 ^ c))).bplevel ≡ c)
  pub total : weight 5 b'.lists + 2 ^ level ≡ weight 5 b.lists
  pub flag : (b'.pages p).flag ≡ 2 ^ 30
  pub bplevel : (b'.pages p).bplevel ≡ level
  pub lock : b'.lock ≡ unlock b.lock

-- What the search from `clevel` on comes to: no page and nothing changed but the lock, where the lists
-- from there on are empty; or a page of the level asked for, marked as handed out, where all other
-- pages of the free lists are still on them.
abbrev pub Outcome : Buddy → (level clevel : ℕ) → Buddy × Option ℕ → Type 0
Outcome b level clevel (b', none) =
    (b' ≡ record b { lock = unlock b.lock })
    × ((c : ℕ) → (if leb clevel c && leb c 4 then (b.lists c).free_head else some []) ≡ some [])
Outcome b level clevel (b', some p) = Handed b level clevel p b'

-- An empty list on the way is one more of them.
passed :
    (b : Buddy) (level clevel : ℕ) (r : Buddy × Option ℕ)
    → (b.lists clevel).free_head ≡ some []
    → Outcome b level (clevel + 1) r
    → Outcome b level clevel r
passed b level clevel (b', none) h (e, empty) = (
  e,
  λ c. elim (ℕ_discrete clevel c) [
    | yes same ↦
        subst (λ k. (if leb clevel k && leb k 4 then (b.lists k).free_head else some []) ≡ some [])
          same (ground (arith, h))
    | no apart ↦ ground (arith, empty c)
  ],
)
passed b level clevel (b', some p) h o = record {
  from = o.from;
  rest = o.rest;
  range = o.range;
  first = o.first;
  skipped = λ c l u. elim (ℕ_discrete clevel c) [
    | yes same ↦ subst (λ k. (b.lists k).free_head ≡ some []) same h
    | no apart ↦ o.skipped c (omega arith) u
  ];
  lists = o.lists;
  marks = o.marks;
  total = o.total;
  flag = o.flag;
  bplevel = o.bplevel;
  lock = o.lock;
}

-- The three ways a round of the search goes.
search_level-zero :
    (clevel level : ℕ) (b : Buddy)
    → search_level zero clevel level b ≡ some (record b { lock = unlock b.lock }, none)
unfolding search_level
search_level-zero clevel level b = refl

search_level-empty :
    (r clevel level : ℕ) (b : Buddy)
    → (b.lists clevel).free_head ≡ some []
    → search_level (suc r) clevel level b ≡ search_level r (clevel + 1) level b
unfolding search_level
search_level-empty r clevel level b h = rw (h, search_level) refl

search_level-block :
    (r clevel level p : ℕ) (ps : List ℕ) (b b' : Buddy)
    → (b.lists clevel).free_head ≡ some (p ∷ ps)
    → take_block level clevel p ps b ≡ some b'
    → search_level (suc r) clevel level b ≡ some (record b' { lock = unlock b'.lock }, some p)
unfolding search_level
search_level-block r clevel level p ps b b' h e = rw (h, search_level) (rw e refl)

search_level-Outcome :
    (r n level : ℕ) (b : Buddy)
    → Tidy b
    → r + (level + n) ≡ 5
    → (o : Buddy × Option ℕ) × (search_level r (level + n) level b ≡ some o)
      × Outcome b level (level + n) o
search_level-Outcome zero n level b t e = (
  (record b { lock = unlock b.lock }, none),
  search_level-zero (level + n) level b,
  (refl, λ c. ground arith),
)
search_level-Outcome (suc r) n level b t e =
    let h = t.ready (level + n) (omega arith) in
    go (search_level-Outcome r (suc n) level b t (omega arith)) h.ps h.head
  where
    up : level + suc n ≡ level + n + 1
    up = omega arith

    go :
        (o : Buddy × Option ℕ) × (search_level r (level + suc n) level b ≡ some o)
          × Outcome b level (level + suc n) o
        → (ps : List ℕ) → (b.lists (level + n)).free_head ≡ some ps
        → (o : Buddy × Option ℕ) × (search_level (suc r) (level + n) level b ≡ some o)
          × Outcome b level (level + n) o
    go (o, f, out) [] h = (
      o,
      search_level-empty r (level + n) level b h
          ∙ subst (λ c. search_level r c level b ≡ some o) up f,
      passed b level (level + n) o h (subst (λ c. Outcome b level c o) up out),
    )
    go rest (p ∷ ps) h =
        let (b', f, l) = take_block-Left b level n p ps t (omega arith) h in
        (
          (record b' { lock = unlock b'.lock }, some p),
          search_level-block r (level + n) level p ps b b' h f,
          record {
            from = level + n;
            rest = ps;
            range = (omega arith, omega arith);
            first = h;
            skipped = λ c lo hi. absurd (omega arith);
            lists = l.lists;
            marks = l.marks;
            total = l.total;
            flag = l.flag;
            bplevel = l.bplevel;
            lock = ap unlock l.lock;
          },
        )

-- From five lists that are set up, say how many blocks they hold and have room, `__alloc_pages` of a
-- level up to 4 comes to an end. It answers no page where the lists from that level on are empty, with
-- only the lock changed. Else it answers the first page of the first of these lists that has one, marked
-- as handed out with that level: this page is off its list, each list below it down to the level, which
-- was empty, has the half that is split off there, marked as free with its level, no other list has changed, and the counts of the
-- lists stand for as many pages fewer as the level says.
pub alloc_block-Outcome :
    (level : ℕ) (b : Buddy)
    → Tidy b
    → level ≤ 4
    → (o : Buddy × Option ℕ) × (alloc_block level b ≡ some o)
      × Outcome (record b { lock = lockup b.lock }) level level o
unfolding alloc_block
alloc_block-Outcome level b t le =
    let e : level + 0 ≡ level = omega arith in
    let b₁ : Buddy = record b { lock = lockup b.lock } in
    let t₁ : Tidy b₁ = record { ready = t.ready; counted = t.counted; words = t.words } in
    subst
      (λ c.
        (o : Buddy × Option ℕ) × (search_level (5 - level) c level b₁ ≡ some o)
        × Outcome b₁ level c o)
      e (search_level-Outcome (5 - level) 0 level b₁ t₁ (omega arith))
