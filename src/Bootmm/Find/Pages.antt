-- ===== src/Bootmm/Find/Pages.antt =====
-- What `find_pages` answers, and what it marks.
use ninix.Bootmm.{Bootmm, page_used, set_maps}
use ninix.Bootmm.Find.{round_start, find_pages}
use ninix.Bootmm.Find.Search.{FreeRun, IsClean, NoRun, Found, search_lem}
use ninix.Base.{
  ltb, leb, if◌then◌else◌, update, ℕ, zero, suc, ◌+◌, ◌-◌, ◌*◌, ◌%◌, ◌^◌, ◌≤◌, ◌<◌, ◌≡◌, refl, ◌≢◌,
  ◌⊎◌, inl, inr, ◌&&◌, Option, none, some, arith, ℕ_discrete, ◌>>=◌,
}

pub set_maps_lem :
    (s cnt v : ℕ) (m : ℕ → ℕ) (j : ℕ)
    → set_maps s cnt v m j ≡ (if leb s j && ltb j (s + cnt) then v else m j)
unfolding set_maps
set_maps_lem s zero v m j = ground arith
set_maps_lem s (suc cnt) v m j = ground (arith, set_maps_lem (s + 1) cnt v (update m s v) j)

-- The pages of an answer: free before, used after, and all others as they were.
pub record Taken (mm mm' : Bootmm) (page_cnt e_pfn p : ℕ) : Type 0 where
  pub run : FreeRun mm.s_map p page_cnt e_pfn
  pub marks :
      (j : ℕ) → mm'.s_map j ≡ (if leb p j && ltb j (p + page_cnt) then page_used else mm.s_map j)
  pub last : mm'.last_alloc_end + 1 ≡ p + page_cnt
  pub table : (mm'.info ≡ mm.info) × (mm'.cnt_infos ≡ mm.cnt_infos) × (mm'.max_pfn ≡ mm.max_pfn)

-- The two answers: pages from `p` on and their address, or 0 and nothing changed.
pub data Answer (mm : Bootmm) (page_cnt e_pfn align start : ℕ) : Option (Bootmm × ℕ) → Type 0 where
  pages :
      {mm' : Bootmm} (p : ℕ)
      → start ≤ p
      → Taken mm mm' page_cnt e_pfn p
      → Answer mm page_cnt e_pfn align start (some (mm', p * 2 ^ 12))
  nothing :
      (align ≢ 1) ⊎ NoRun mm.s_map page_cnt e_pfn start
      → Answer mm page_cnt e_pfn align start (some (mm, 0))

-- On a clean map, within the 2 ^ 20 pages that 32 bits address, `find_pages` of a page or more returns:
-- either the address of free pages at or behind the rounded start, which may lie before `s_pfn`, and
-- before `e_pfn`, which are marked used while no other page changes and the last one is remembered; or 0
-- with nothing changed, and then, at an alignment of one page, no run of that many free pages starts at
-- or behind the rounded start.
pub find_pages-Answer :
    (mm : Bootmm) (page_cnt s_pfn e_pfn align : ℕ)
    → IsClean mm.s_map e_pfn
    → 0 < page_cnt
    → e_pfn ≤ 2 ^ 20
    → align ≤ 2 ^ 20
    → Answer mm page_cnt e_pfn align
        (round_start s_pfn align)
        (find_pages mm page_cnt s_pfn e_pfn align)
unfolding find_pages
find_pages-Answer mm page_cnt s_pfn e_pfn align c pos small small' = go _ (
    search_lem (e_pfn + 1) mm.s_map page_cnt e_pfn align (round_start s_pfn align) c pos
      (omega arith) (omega arith) (omega arith))
  where
    start : ℕ
    start = round_start s_pfn align

    go :
        (r : Option (Option ℕ))
        → Found mm.s_map page_cnt e_pfn align start r
        → Answer mm page_cnt e_pfn align start (
            r >>= λ page. elim page [
              | none ↦ some (mm, 0)
              | some i ↦ some (
                record mm {
                  last_alloc_end = (i + page_cnt + 2 ^ 32 - 1) % 2 ^ 32;
                  s_map = set_maps i page_cnt page_used mm.s_map;
                },
                i * 2 ^ 12 % 2 ^ 32,
              )
            ])
    go none f = absurd f
    go (some none) f =
        nothing (elim (ℕ_discrete align 1) [ yes one ↦ inr (f one) | no other ↦ inl other ])
    go (some (some p)) f =
        let e : p * 2 ^ 12 % 2 ^ 32 ≡ p * 2 ^ 12 = omega (arith, f.1.fits) in
        rw e (
          pages p f.0 (record {
            run = f.1;
            marks = set_maps_lem p page_cnt page_used mm.s_map;
            last = omega (arith, f.1.fits);
            table = (refl, refl, refl);
          }))
