-- ===== src/Slab/Examples.antt =====
-- The theorems on the slab allocator at concrete states.
use ninix.Buddy.{Buddy}
use ninix.Buddy.Alloc.{alloc_block}
use ninix.Ring.Nodes.{count}
use ninix.Slab.Objects
use ninix.Slab.{SlabHead, KmemCache, Slab, kmem_addr, init_slab}
use ninix.Slab.Alloc.{slab_alloc}
use ninix.Slab.Free.{slab_free}
use ninix.Slab.Kmalloc.{get_slab}
use ninix.Slab.Objects.{Live, slab_alloc-next, slab_alloc-exhausted}
use ninix.Slab.Freeing.{slab_alloc-slab_free, slab_alloc-overrun}
use ninix.Slab.Fresh.{slab_alloc-first}
use ninix.Slab.Classes.{get_slab-init_slab}
use ninix.Base.{
  ◌==◌, if◌then◌else◌, word, ℕ, ◌+◌, ◌*◌, ◌^◌, ◌≤◌, ◌<◌, ◌≡◌, refl, false, Option, none, some, [],
  ◌∷◌, arith,
}

-- Page 5 is free, and there is no other.
abbrev one_page : Buddy
one_page = record {
  pages = λ p. record { flag = 0; reference = 0; virtual = 0; bplevel = 0; slabp = 0 };
  start_page = 0;
  buddy_start_pfn = 0;
  buddy_end_pfn = 0;
  lock = record { spin = 0; interrupts = false };
  lists = λ c.
      if c == 0
      then record { nr_free = 1; free_head = some (5 ∷ []) }
      else record { nr_free = 0; free_head = some [] };
}

-- The cache of 1536 bytes, of which two objects fit on a page and a third one does not.
abbrev class_1536 : Option ℕ → KmemCache
class_1536 cpu_page = record {
  size = 1540;
  objsize = 1536;
  offset = 1540;
  partial = [];
  full = [];
  cpu_page = cpu_page;
}

abbrev slab_of : Option ℕ → SlabHead → Slab
slab_of cpu_page head = record {
  buddy = one_page;
  caches = λ i. class_1536 cpu_page;
  heads = λ p. head;
  words = λ a. 0;
}

-- One object is in use, and both of them.
abbrev one_used : Slab
one_used = slab_of (some 5) (record { end_ptr = 0x80005000 + 1552; nr_objs = 1; is_full = 0 })

abbrev both_used : Slab
both_used = slab_of (some 5) (record { end_ptr = 0x80005000 + 3092; nr_objs = 2; is_full = 1 })

one_used-Page : Objects.Page one_used 10 5 1540 1 0 []
unfolding kmem_addr count
one_used-Page = record {
  current = refl;
  sized = refl;
  some_size = omega arith;
  low = omega arith;
  high = omega arith;
  few = omega arith;
  inside = omega arith;
  end = refl;
  full_flag = refl;
  linked = refl;
  objects = tt;
  distinct = λ o. omega arith;
  live = refl;
}

both_used-Page : Objects.Page both_used 10 5 1540 2 1 []
unfolding kmem_addr count
both_used-Page = record {
  current = refl;
  sized = refl;
  some_size = omega arith;
  low = omega arith;
  high = omega arith;
  few = omega arith;
  inside = omega arith;
  end = refl;
  full_flag = refl;
  linked = refl;
  objects = tt;
  distinct = λ o. omega arith;
  live = refl;
}

first-Live : Live both_used 10 5 2 [] 0x8000500c
unfolding kmem_addr count
first-Live = record { number = 0; below = omega arith; address = refl; not_free = refl }

next_example :
    (s' : Slab) × (slab_alloc 10 one_used ≡ some (s', some (kmem_addr 5 + 12 + 1540 * 1)))
    × Objects.Page s' 10 5 1540 2 1 []
next_example = slab_alloc-next one_used 10 5 1540 1 one_used-Page (omega arith) (omega arith)

again_example :
    (s' : Slab) × (s'' : Slab) × (slab_free 10 0x500c both_used ≡ some s')
    × (slab_alloc 10 s' ≡ some (s'', some 0x8000500c))
    × Objects.Page s'' 10 5 1540 2 0 []
again_example =
    slab_alloc-slab_free both_used 10 5 1540 2 1 [] both_used-Page 0x8000500c 0x500c first-Live
      (omega arith) refl refl

overrun_example :
    (s₁ : Slab) × (s₂ : Slab) × (s₃ : Slab) × (o' : ℕ) × (slab_free 10 0x500c both_used ≡ some s₁)
    × (slab_alloc 10 s₁ ≡ some (s₂, some 0x8000500c))
    × (slab_alloc 10 s₂ ≡ some (s₃, some o'))
    × (kmem_addr 5 + 2 ^ 12 < o' + (s₃.caches 10).size)
overrun_example =
    slab_alloc-overrun both_used 10 5 1540 2 0x8000500c 0x500c both_used-Page first-Live
      (omega arith) refl refl (omega arith) (omega arith) (omega arith)

abbrev unused : Slab
unused = slab_of none (record { end_ptr = 0; nr_objs = 0; is_full = 0 })

-- What the buddy allocator is behind a call.
abbrev taken : Option (Buddy × Option ℕ) → Buddy
taken none = one_page
taken (some r) = r.0

page_5 : alloc_block 0 one_page ≡ some (taken (alloc_block 0 one_page), some 5)
unfolding alloc_block
page_5 = refl

kernel_page : (0 < kmem_addr 5) × (kmem_addr 5 + 2 ^ 14 < word)
unfolding kmem_addr
kernel_page = omega arith

first_example :
    (s' : Slab) × (slab_alloc 10 unused ≡ some (s', some (kmem_addr 5 + 12)))
    × Objects.Page s' 10 5 1540 1 0 []
first_example =
    slab_alloc-first unused 10 5 (taken (alloc_block 0 one_page)) refl refl page_5 (omega arith)
      (omega arith) kernel_page.0 kernel_page.1

class_example :
    let t = init_slab unused in
    let k = get_slab 100 t in
    (k < 12)
    × (100 ≤ (t.caches k).objsize)
    × ((j : ℕ) → j < 12 → 100 ≤ (t.caches j).objsize → (t.caches k).objsize ≤ (t.caches j).objsize)
class_example = get_slab-init_slab 100 unused (omega arith)
