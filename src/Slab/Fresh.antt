-- ===== src/Slab/Fresh.antt =====
-- The first object of a cache: a page comes from the buddy allocator.
use ninix.Ring.Nodes.{count}
use ninix.Buddy.{Buddy}
use ninix.Buddy.Alloc.{alloc_block}
use ninix.Slab.{Slab, kmem_addr, format_slabpage}
use ninix.Slab.Alloc.{bump, alloc_fresh, alloc_in, slab_alloc}
use ninix.Slab.Objects.{Page, cut_off, bump_answer}
use ninix.Base.{
  leb, ◌==◌, if◌then◌else◌, word, ℕ, ◌+◌, ◌*◌, ◌^◌, ◌<◌, ◌≡◌, refl, ap, ap₂, subst, ◌∙◌, true, none,
  some, [], arith,
}

formatted :
    (s : Slab) (i p : ℕ)
    → 0 < (s.caches i).size
    → 0 < kmem_addr p
    → kmem_addr p + 2 ^ 14 < word
    → Page (format_slabpage i p s) i p (s.caches i).size 0 0 []
unfolding format_slabpage count
formatted s i p pos low high =
    let self : (p == p) ≡ true = ground arith in
    let mine : (i == i) ≡ true = ground arith in
    record {
      current = rw mine refl;
      sized = rw mine refl;
      some_size = rw mine pos;
      low = low;
      high = high;
      few = omega arith;
      inside = omega arith;
      end = rw self (omega (arith, high));
      full_flag = rw self refl;
      linked = rw self refl;
      objects = tt;
      distinct = λ x. omega arith;
      live = rw self refl;
    }

-- The first `slab_alloc` of a cache of objects that fit in two pages, when the buddy allocator has the
-- page `p` in the memory of a word: it answers the address behind the head of this page, which becomes
-- the current page, in good order with one object in use.
pub slab_alloc-first :
    (s : Slab) (i p : ℕ) (b : Buddy)
    → (s.caches i).cpu_page ≡ none
    → (s.caches i).partial ≡ []
    → alloc_block 0 s.buddy ≡ some (b, some p)
    → 0 < (s.caches i).size
    → 12 + (s.caches i).size < 2 ^ 13
    → 0 < kmem_addr p
    → kmem_addr p + 2 ^ 14 < word
    → let size = (s.caches i).size in
      (s' : Slab) × (slab_alloc i s ≡ some (s', some (kmem_addr p + 12)))
      × Page s' i p size 1 (if leb (2 ^ 12) (12 + size + size) then 1 else 0) []
unfolding slab_alloc alloc_fresh
slab_alloc-first s i p b none_yet no_list found pos room low high =
    let t = format_slabpage i p (record s { buddy = b }) in
    let size = (s.caches i).size in
    let v = formatted (record s { buddy = b }) i p pos low high in
    let same : (t.caches i).size * (0 + 1) ≡ size = rw v.sized (omega arith) in
    let w = cut_off t i p size 0 v (rw same room) (omega arith) in
    let at : (bump i p t).1 ≡ kmem_addr p + 12 = bump_answer t i p ∙ v.end ∙ omega arith in
    (
      (bump i p t).0,
      ap₂ (λ c q. alloc_in c q i s) none_yet no_list
          ∙ rw found (ap (λ x. some ((bump i p t).0, some x)) at),
      subst (λ f. Page (bump i p t).0 i p size 1 f []) (rw (same, v.sized) refl) w,
    )
