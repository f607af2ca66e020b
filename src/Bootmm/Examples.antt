-- ===== src/Bootmm/Examples.antt =====
-- The theorems on the boot-time allocator at concrete states.
use ninix.Bootmm.{Bootmm, BootmmInfo}
use ninix.Bootmm.Find.{round_start, find_pages, bootmm_alloc_pages}
use ninix.Bootmm.Find.Search.{IsClean}
use ninix.Bootmm.Find.Pages.{Answer, find_pages-Answer}
use ninix.Bootmm.Info.{non_connection, insert_loop, insert_mminfo}
use ninix.Bootmm.Init.{init_bootmm}
use ninix.Bootmm.Init.Kept.{Kept, Above, init_bootmm-Kept, bootmm_alloc_pages-Above}
use ninix.Base.{
  ltb, if◌then◌else◌, Bool-cases, ℕ, ◌+◌, ◌-◌, ◌*◌, ◌^◌, ◌≡◌, refl, inl, inr, some, arith,
}

-- Eight pages of which the first two are used.
abbrev small : Bootmm
small = record {
  phymm = 8 * 2 ^ 12;
  max_pfn = 8;
  s_map = λ i. if ltb i 2 then 255 else 0;
  last_alloc_end = 1;
  cnt_infos = 0;
  info = λ i. record { start = 0; end = 0; type = 0 };
}

small-IsClean : IsClean small.s_map 8
small-IsClean j h = elim (Bool-cases (ltb j 2)) [
  | inl e ↦ inr (rw e refl)
  | inr e ↦ inl (rw e refl)
]

find_pages_example : Answer small 3 8 2 (round_start 2 2) (find_pages small 3 2 8 2)
find_pages_example =
    find_pages-Answer small 3 2 8 2 small-IsClean (omega arith) (omega arith) (omega arith)

booted-Kept : Kept (init_bootmm small (128 * 1024 * 1024))
booted-Kept = init_bootmm-Kept small (128 * 1024 * 1024) (omega arith)

alloc_example :
    (r : Bootmm × ℕ) × (bootmm_alloc_pages (init_bootmm small (128 * 1024 * 1024)) 5000 5 4096
      ≡ some r)
    × Above r
alloc_example =
    bootmm_alloc_pages-Above (init_bootmm small (128 * 1024 * 1024)) 5000 5 4096 booted-Kept
      (omega arith) (omega arith) (omega arith)

-- Areas of 16 pages each, the last two in use by the table.
abbrev area : ℕ → BootmmInfo
area i = record { start = i * 2 ^ 16; end = i * 2 ^ 16 + 2 ^ 15 - 1; type = 1 }

abbrev filled : Bootmm
filled = record small { cnt_infos = 3; info = area }

apart : (insert_mminfo filled (2 ^ 15 + 2 ^ 12) (2 ^ 15 + 2 ^ 13) 1).1 ≡ non_connection
unfolding insert_mminfo insert_loop
apart = refl
