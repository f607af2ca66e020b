-- ===== src/Bootmm/Init/Kept.antt =====
-- The kernel's own pages stay used, from `init_bootmm` on.
use ninix.Bootmm.{Bootmm, page_align, page_free, page_used, set_maps}
use ninix.Bootmm.Info.{insert_mminfo}
use ninix.Bootmm.Info.Rest.{insert_mminfo-SamePages}
use ninix.Bootmm.Find.{find_pages, round_start, record_pages, retry_below, bootmm_alloc_pages}
use ninix.Bootmm.Find.Search.{IsClean}
use ninix.Bootmm.Find.Pages.{set_maps_lem, Taken, Answer, pages, nothing, find_pages-Answer}
use ninix.Bootmm.Init.{init_bootmm, map_size, kernel_end, mm_kernel}
use ninix.Base.{
  ltb, leb, ◌==◌, if◌then◌else◌, Bool-cases, ℕ, ◌+◌, ◌-◌, ◌*◌, ◌/◌, ◌%◌, ◌^◌, ◌≤◌, ◌<◌, ◌≡◌, refl,
  ◌⊎◌, inl, inr, false, not, ◌&&◌, Option, some, arith,
}

-- Within the machine's 32768 pages the map is clean, the first 4096 pages are used, and the last
-- allocation lies inside.
pub record Kept (mm : Bootmm) : Type 0 where
  pub clean : IsClean mm.s_map 32768
  pub kernel : (j : ℕ) → (ltb j 4096 && not (mm.s_map j == page_used)) ≡ false
  pub pages : mm.max_pfn ≤ 32768
  pub last : mm.last_alloc_end < 32768

-- `init_bootmm` with up to 128 MB of memory establishes it.
pub init_bootmm-Kept :
    (mm : Bootmm) (phymm : ℕ) → phymm ≤ 128 * 1024 * 1024 → Kept (init_bootmm mm phymm)
unfolding init_bootmm
init_bootmm-Kept mm phymm le =
    let empty : Bootmm = record {
      phymm = phymm;
      max_pfn = phymm / 2 ^ 12;
      s_map = set_maps 0 map_size page_free mm.s_map;
      last_alloc_end = 0;
      cnt_infos = 0;
      info = λ i. if ltb i 10 then record { start = 0; end = 0; type = 0 } else mm.info i;
    } in
    let r = insert_mminfo-SamePages empty 0 (kernel_end - 1) mm_kernel in
    let at = λ (j : ℕ).
      set_maps_lem 0 4096 page_used (insert_mminfo empty 0 (kernel_end - 1) mm_kernel).0.s_map j in
    let below = λ (j : ℕ). set_maps_lem 0 map_size page_free mm.s_map j in
    record {
      clean = λ j h. rw (at j) (
          rw (r.0) (
            rw (below j) (elim (Bool-cases (ltb j 4096)) [
              | inl e ↦ inr (ground arith)
              | inr e ↦ inl (ground arith)
            ])));
      kernel = λ j. rw (at j) (ground arith);
      pages = rw (r.1) (omega arith);
      last = omega arith;
    }

Kept-marked :
    (mm mm' : Bootmm) (cnt e p : ℕ)
    → Kept mm
    → Taken mm mm' cnt e p
    → e ≤ 32768
    → 0 < cnt
    → Kept mm'
Kept-marked mm mm' cnt e p k t top pos = record {
  clean = λ j h. rw (t.marks j) (elim (Bool-cases (leb p j && ltb j (p + cnt))) [
    | inl y ↦ inr (ground arith)
    | inr n ↦ rw n (k.clean j h)
  ]);
  kernel = λ j. ground (arith, t.marks j, k.kernel j);
  pages = rw (t.table.2) k.pages;
  last = omega (arith, t.last, t.run.fits);
}

-- A free page is not one of the kernel's.
Taken-above : (mm mm' : Bootmm) (cnt e p : ℕ) → Kept mm → Taken mm mm' cnt e p → 0 < cnt → 4096 ≤ p
Taken-above mm mm' cnt e p k t pos =
    ground (arith, k.kernel p, t.run.free p (omega arith) (omega arith))

-- An answer of the allocator: none, or pages behind the kernel's.
pub record Above (r : Bootmm × ℕ) : Type 0 where
  pub kept : Kept r.0
  pub place : (r.1 ≡ 0) ⊎ (4096 * 2 ^ 12 ≤ r.1)

Answer-Above :
    (mm : Bootmm) (cnt e align start : ℕ) {o : Option (Bootmm × ℕ)}
    → Kept mm
    → 0 < cnt
    → e ≤ 32768
    → Answer mm cnt e align start o
    → (r : Bootmm × ℕ) × (o ≡ some r) × Above r
Answer-Above mm cnt e align start k pos top (pages {mm'} p lo t) =
    let above : 4096 ≤ p = Taken-above mm mm' cnt e p k t pos in
    (
      (mm', p * 2 ^ 12),
      refl,
      record { kept = Kept-marked mm mm' cnt e p k t top pos; place = inr (omega arith) },
    )
Answer-Above mm cnt e align start k pos top (nothing n) =
    ((mm, 0), refl, record { kept = k; place = inl refl })

Kept-record_pages :
    (mm : Bootmm) (res size type : ℕ) → Kept mm → Kept (record_pages mm res size type)
unfolding record_pages
Kept-record_pages mm res size type k =
    let r = insert_mminfo-SamePages mm res ((res + size + 2 ^ 32 - 1) % 2 ^ 32) type in
    record {
      clean = λ j h. rw (r.0) (k.clean j h);
      kernel = λ j. rw (r.0) (k.kernel j);
      pages = rw (r.1) k.pages;
      last = rw (r.2) k.last;
    }

found_pages :
    (mm : Bootmm) (cnt s e align : ℕ)
    → Kept mm
    → 0 < cnt
    → e ≤ 32768
    → align ≤ 2 ^ 20
    → (r : Bootmm × ℕ) × (find_pages mm cnt s e align ≡ some r) × Above r
found_pages mm cnt s e align k pos top small =
    Answer-Above mm cnt e align (round_start s align) k pos top
      (find_pages-Answer mm cnt s e align (λ j h. k.clean j (omega arith)) pos (omega arith) small)

recorded :
    (r : Bootmm × ℕ) (size type : ℕ)
    → Above r
    → (r.1 == 0) ≡ false
    → Above (record_pages r.0 r.1 size type, r.1)
recorded r size type a e = record {
  kept = Kept-record_pages r.0 r.1 size type a.kept;
  place = a.place;
}

retry_below-Above :
    (mm : Bootmm) (cnt size type align : ℕ)
    → Kept mm
    → 0 < cnt
    → align ≤ 2 ^ 20
    → (r : Bootmm × ℕ) × (retry_below mm cnt size type align ≡ some r) × Above r
unfolding retry_below
retry_below-Above mm cnt size type align k pos small =
    let (r, e, a) =
      found_pages mm cnt 0 mm.last_alloc_end align k pos (omega (arith, k.last)) small in
    rw e (elim (Bool-cases (r.1 == 0)) [
      | inl none_found ↦ rw none_found ((r.0, 0), refl, record { kept = a.kept; place = inl refl })
      | inr some_found ↦
          rw some_found
            ((record_pages r.0 r.1 size type, r.1), refl, recorded r size type a some_found)
    ])

-- Whole pages, at least one.
pages_of :
    (size : ℕ)
    → 0 < size
    → size + 2 ^ 12 ≤ 2 ^ 32
    → 0 < page_align ((size + 2 ^ 12 - 1) % 2 ^ 32) / 2 ^ 12
pages_of size pos fits = omega arith

-- From a map in which the kernel's pages are used, `bootmm_alloc_pages` of at least one byte comes to
-- an end; its answer is 0 or an address behind the kernel's 16 MB, and these pages are still used.
pub bootmm_alloc_pages-Above :
    (mm : Bootmm) (size type align : ℕ)
    → Kept mm
    → 0 < size
    → size + 2 ^ 12 ≤ 2 ^ 32
    → align < 2 ^ 32
    → (r : Bootmm × ℕ) × (bootmm_alloc_pages mm size type align ≡ some r) × Above r
unfolding bootmm_alloc_pages
bootmm_alloc_pages-Above mm size type align k pos fits small =
    let full = page_align ((size + 2 ^ 12 - 1) % 2 ^ 32) in
    let cnt = full / 2 ^ 12 in
    let (r, e, a) =
      found_pages mm cnt ((mm.last_alloc_end + 1) % 2 ^ 32) mm.max_pfn (align / 2 ^ 12) k
        (pages_of size pos fits) k.pages (omega arith) in
    rw e (elim (Bool-cases (r.1 == 0)) [
      | inl none_found ↦ rw none_found (
          retry_below-Above r.0 cnt full type (align / 2 ^ 12) a.kept (pages_of size pos fits)
            (omega arith))
      | inr some_found ↦
          rw some_found
            ((record_pages r.0 r.1 full type, r.1), refl, recorded r full type a some_found)
    ])
