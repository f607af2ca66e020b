-- ===== src/Buddy/Examples.antt =====
-- The theorems on the buddy allocator at concrete states.
use ninix.Lock.{lockup}
use ninix.Bootmm.{Bootmm}
use ninix.Buddy.{Page, FreeList, Buddy}
use ninix.Buddy.Alloc.{alloc_block}
use ninix.Buddy.Alloc.Take.{Tidy}
use ninix.Buddy.Alloc.Conserve.{Outcome, alloc_block-Outcome}
use ninix.Buddy.Free.{kernel_end_pfn, init_lists, init_buddy}
use ninix.Buddy.Free.Start.{init_buddy-idle}
use ninix.Base.{
  ◌==◌, if◌then◌else◌, Bool-cases, length, ℕ, ◌*◌, ◌^◌, ◌<◌, ◌≡◌, refl, inl, inr, false, Option,
  none, some, List, [], ◌∷◌, arith,
}

abbrev blank : Page
blank = record { flag = 0; reference = 0; virtual = 0; bplevel = 0; slabp = 0 }

-- Before the start: all memory is zero.
abbrev unset : Buddy
unset = record {
  pages = λ p. blank;
  start_page = 0;
  buddy_start_pfn = 0;
  buddy_end_pfn = 0;
  lock = record { spin = 0; interrupts = false };
  lists = λ c. record { nr_free = 0; free_head = none };
}

-- 128 MB of which the kernel has 16.
abbrev machine : Bootmm
machine = record {
  phymm = 128 * 1024 * 1024;
  max_pfn = 32768;
  s_map = λ i. 0;
  last_alloc_end = 4095;
  cnt_infos = 1;
  info = λ i. record { start = 0; end = 0xffffff; type = 0 };
}

last_page : kernel_end_pfn machine.cnt_infos 0 0 machine ≡ 4095
unfolding kernel_end_pfn
last_page = refl

idle_buddy_example :
    (b' : Buddy) × (init_buddy machine unset ≡ some b')
    × (b'.lists ≡ init_lists 4 0 unset.lists)
    × (alloc_block 2 b' ≡ none)
idle_buddy_example =
    init_buddy-idle machine unset 2 (omega (arith, last_page)) (omega (arith, last_page))
      (omega arith) refl refl (omega arith)

-- One block of 16 pages is free.
abbrev sixteen : FreeList
sixteen = record { nr_free = 1; free_head = some (4096 ∷ []) }

abbrev nothing_free : FreeList
nothing_free = record { nr_free = 0; free_head = some [] }

abbrev one_block : Buddy
one_block = record unset { lists = λ c. if c == 4 then sixteen else nothing_free }

one_block-Tidy : Tidy one_block
one_block-Tidy = record {
  ready = λ c lt. elim (Bool-cases (c == 4)) [
    | inl e ↦ rw e (record { ps = 4096 ∷ []; head = refl; room = omega arith })
    | inr e ↦ rw e (record { ps = []; head = refl; room = omega arith })
  ];
  counted = λ c ps. elim (Bool-cases (c == 4)) [
    | inl e ↦ rw e (λ h. count_sixteen ps h)
    | inr e ↦ rw e (λ h. count_nothing ps h)
  ];
  words = λ c p ps. elim (Bool-cases (c == 4)) [
    | inl e ↦ rw e (λ h. word_sixteen p ps h)
    | inr e ↦ rw e (λ h. absurd (not_there p ps h))
  ];
}
  where
    count_sixteen : (ps : List ℕ) → some (4096 ∷ []) ≡ some ps → 1 ≡ length ps
    count_sixteen ps h = let e : 4096 ∷ [] ≡ ps = cc in rw (← e) refl

    count_nothing : (ps : List ℕ) → ◌≡◌ {A = Option (List ℕ)} (some []) (some ps) → 0 ≡ length ps
    count_nothing ps h = let e : [] ≡ ps = cc in rw (← e) refl

    word_sixteen : (p : ℕ) (ps : List ℕ) → some (4096 ∷ []) ≡ some (p ∷ ps) → p < 2 ^ 32
    word_sixteen p ps h = let e : 4096 ≡ p = cc in omega arith

    not_there : (p : ℕ) (ps : List ℕ) → ◌≡◌ {A = Option (List ℕ)} (some []) (some (p ∷ ps)) → ⊥
    not_there p ps h = cc

alloc_block_example :
    (o : Buddy × Option ℕ) × (alloc_block 1 one_block ≡ some o)
    × Outcome (record one_block { lock = lockup one_block.lock }) 1 1 o
alloc_block_example = alloc_block-Outcome 1 one_block one_block-Tidy (omega arith)
