-- ===== src/Slab/Objects.antt =====
-- The objects of the current page of a cache: what is handed out, and what is taken back.
use ninix.Ring.Nodes.{count}
use ninix.Slab.{Slab, kmem_addr}
use ninix.Slab.Alloc.{bump, pop_object, alloc_from, alloc_in, slab_alloc}
use ninix.Base.{
  ltb, leb, ◌==◌, if◌then◌else◌, Bool-cases, length, word, ℕ, ◌+◌, ◌-◌, ◌*◌, ◌%◌, ◌^◌, ◌<◌, ◌≡◌,
  refl, ap, ◌∙◌, inl, inr, true, false, none, some, List, [], ◌∷◌, arith,
}

-- The free objects `os` are linked from the address `a` on.
abbrev pub Chain : (ℕ → ℕ) → ℕ → List ℕ → Type 0
Chain words a [] = a ≡ 0
Chain words a (o ∷ os) = (a ≡ o) × Chain words (words o) os

-- Every one is among the first `n` objects of a page.
abbrev pub AllObjects : (base size n : ℕ) → List ℕ → Type 0
AllObjects base size n [] = Unit {0}
AllObjects base size n (o ∷ os) =
    ((k : ℕ) × (k < n) × (o ≡ base + 12 + size * k)) × AllObjects base size n os

-- Page `p` is the current one of cache `i`: `n` objects have been cut off it, of which those on `free`
-- are free. The answer of `is_full` is `full`.
pub record Page (s : Slab) (i p size n full : ℕ) (free : List ℕ) : Type 0 where
  pub current : (s.caches i).cpu_page ≡ some p
  pub sized : (s.caches i).size ≡ size
  pub some_size : 0 < (s.caches i).size
  pub low : 0 < kmem_addr p
  pub high : kmem_addr p + 2 ^ 14 < word
  pub few : n < 2 ^ 13
  pub inside : 12 + (s.caches i).size * n < 2 ^ 13
  pub end : (s.heads p).end_ptr ≡ kmem_addr p + 12 + (s.caches i).size * n
  pub full_flag : (s.heads p).is_full ≡ full
  pub linked : Chain s.words (s.buddy.pages p).slabp free
  pub objects : AllObjects (kmem_addr p) (s.caches i).size n free
  pub distinct : (o : ℕ) → count o free < 2
  pub live : (s.heads p).nr_objs + length free ≡ n

-- The object number `k` of the page is in use.
pub record Live (s : Slab) (i p n : ℕ) (free : List ℕ) (o : ℕ) : Type 0 where
  pub number : ℕ
  pub below : number < n
  pub address : o ≡ kmem_addr p + 12 + (s.caches i).size * number
  pub not_free : count o free ≡ 0

module _ (s : Slab) (i p : ℕ) where
  from_current : (s.caches i).cpu_page ≡ some p → slab_alloc i s ≡ some (alloc_from i p s)
  unfolding slab_alloc
  from_current e = ap (λ c. alloc_in c (s.caches i).partial i s) e

  freed :
      (o : ℕ)
      → ((s.buddy.pages p).slabp == 0) ≡ false
      → (s.buddy.pages p).slabp ≡ o
      → some (alloc_from i p s) ≡ some ((pop_object p s).0, some o)
  unfolding alloc_from
  freed o e f = rw e (ap (λ x. some ((pop_object p s).0, some x)) f)

  popped :
      (size n full o : ℕ) (os : List ℕ)
      → Page s i p size n full (o ∷ os)
      → Page (pop_object p s).0 i p size n full os
  unfolding pop_object count
  popped size n full o os v =
      let self : (p == p) ≡ true = ground arith in
      record {
        current = v.current;
        sized = v.sized;
        some_size = v.some_size;
        low = v.low;
        high = v.high;
        few = v.few;
        inside = v.inside;
        end = rw self v.end;
        full_flag = rw self v.full_flag;
        linked = rw (self, v.linked.0) v.linked.1;
        objects = v.objects.1;
        distinct = λ x. omega (arith, v.distinct x);
        live = rw self (omega (arith, v.live, v.few));
      }

  -- With a free object on the page `slab_alloc` answers the one that was freed last, and it is used.
  pub slab_alloc-freed :
      (size n full o : ℕ) (os : List ℕ)
      → Page s i p size n full (o ∷ os)
      → (s' : Slab) × (slab_alloc i s ≡ some (s', some o)) × Page s' i p size n full os
  slab_alloc-freed size n full o os v =
      let a : (k : ℕ) × (k < n) × (o ≡ kmem_addr p + 12 + (s.caches i).size * k) = v.objects.0 in
      let e : ((s.buddy.pages p).slabp == 0) ≡ false = ground (arith, v.low, v.linked.0, a.2) in
      ((pop_object p s).0, from_current v.current ∙ freed o e v.linked.0, popped size n full o os v)

  bumped :
      ((s.buddy.pages p).slabp == 0) ≡ true
      → ((s.heads p).is_full == 0) ≡ true
      → alloc_from i p s ≡ ((bump i p s).0, some (bump i p s).1)
  unfolding alloc_from
  bumped e f = rw (e, f) refl

  pub bump_answer : (bump i p s).1 ≡ (s.heads p).end_ptr
  unfolding bump
  bump_answer = ground arith

  pub cut_off :
      (size n : ℕ)
      → Page s i p size n 0 []
      → 12 + (s.caches i).size * (n + 1) < 2 ^ 13
      → n + 1 < 2 ^ 13
      → Page
          (bump i p s).0
          i
          p
          size
          (n + 1)
          (if leb (2 ^ 12) (12 + (s.caches i).size * (n + 1) + (s.caches i).size) then 1 else 0)
          []
  unfolding bump count
  cut_off size n v room few =
      let width = (s.caches i).size in
      let self : (p == p) ≡ true = ground arith in
      let mine : (i == i) ≡ true = ground arith in
      let more : width * (n + 1) ≡ width * n + width = omega arith in
      let end : ((s.heads p).end_ptr + width) % word ≡ kmem_addr p + 12 + width * (n + 1) =
        omega (arith, v.end, v.high, v.inside) in
      let d : (kmem_addr p + 12 + width * (n + 1) + width + word - kmem_addr p) % word
          ≡ 12 + width * (n + 1) + width =
        omega (arith, v.high) in
      let near : ltb (12 + width * (n + 1) + width) (2 ^ 31) ≡ true = ground arith in
      let live : ((s.heads p).nr_objs + 1) % word + 0 ≡ n + 1 = omega (arith, v.live) in
      elim (Bool-cases (leb (2 ^ 12) (12 + width * (n + 1) + width))) [
        | inl e ↦
            rw (end, d, near, e)
              (record {
                current = rw mine v.current;
                sized = rw mine v.sized;
                some_size = rw mine v.some_size;
                low = v.low;
                high = v.high;
                few = few;
                inside = rw mine room;
                end = rw (self, mine) refl;
                full_flag = rw self refl;
                linked = v.linked;
                objects = tt;
                distinct = λ x. omega arith;
                live = rw self live;
              })
        | inr e ↦
            rw (end, d, near, e)
              (record {
                current = v.current;
                sized = v.sized;
                some_size = v.some_size;
                low = v.low;
                high = v.high;
                few = few;
                inside = room;
                end = rw self refl;
                full_flag = rw self v.full_flag;
                linked = v.linked;
                objects = tt;
                distinct = λ x. omega arith;
                live = rw self live;
              })
      ]

  -- With no free object on a current page that is in good order and not full, where one more fits in
  -- two pages, `slab_alloc` answers the next object behind those that were cut off; the page stays in
  -- good order and counts as full exactly when another object would reach its end.
  pub slab_alloc-next :
      (size n : ℕ)
      → Page s i p size n 0 []
      → 12 + (s.caches i).size * (n + 1) < 2 ^ 13
      → n + 1 < 2 ^ 13
      → (s' : Slab) × (slab_alloc i s ≡ some (s', some (kmem_addr p + 12 + (s.caches i).size * n)))
        × Page s' i p size
            (n + 1)
            (if leb (2 ^ 12) (12 + (s.caches i).size * (n + 1) + (s.caches i).size) then 1 else 0)
            []
  slab_alloc-next size n v room few =
      let e : ((s.buddy.pages p).slabp == 0) ≡ true = ground (arith, v.linked) in
      let f : ((s.heads p).is_full == 0) ≡ true = ground (arith, v.full_flag) in
      (
        (bump i p s).0,
        from_current v.current
            ∙ ap (λ r. some r) (bumped e f)
            ∙ ap (λ x. some ((bump i p s).0, some x)) (bump_answer ∙ v.end),
        cut_off size n v room few,
      )

  -- On a page that is full without a free object `slab_alloc` ends without an answer.
  pub slab_alloc-exhausted : (size n : ℕ) → Page s i p size n 1 [] → slab_alloc i s ≡ some (s, none)
  unfolding alloc_from
  slab_alloc-exhausted size n v =
      let e : ((s.buddy.pages p).slabp == 0) ≡ true = ground (arith, v.linked) in
      let f : ((s.heads p).is_full == 0) ≡ false = ground (arith, v.full_flag) in
      from_current v.current ∙ rw (e, f) refl
