-- ===== src/Bootmm/Find.antt =====
-- `find_pages` and `bootmm_alloc_pages`.
pub mod Search
pub mod Pages
use ninix.Bootmm.{Bootmm, page_shift, page_free, page_used, page_align, set_maps}
use ninix.Bootmm.Info.{insert_mminfo}
use ninix.Base.{
  leb, ◌==◌, if◌then◌else◌, ℕ, zero, suc, ◌+◌, ◌-◌, ◌*◌, ◌/◌, ◌%◌, ◌^◌, bit_and, not, Option, none,
  some, ◌>>=◌,
}

-- How the inner loop ends: all pages are free, the range ends first, a used page at `temp` stops
-- it, or a byte that is neither keeps it going for ever.
pub data Probe : Type 0 where
  found : ℕ → Probe
  beyond : Probe
  blocked : ℕ → Probe
  hang : Probe

unfoldable pub probe : (ℕ → ℕ) → (e_pfn cnt temp : ℕ) → Probe
probe m e_pfn zero temp = found temp
probe m e_pfn (suc cnt) temp =
    let rest = probe m e_pfn cnt (temp + 1) in
    if leb e_pfn temp
    then beyond
    else if m temp == page_used
    then blocked temp
    else if m temp == page_free
    then rest
    else hang

-- The page at which the search ends, if it ends: `some none` is the answer 0.
unfoldable pub search : ℕ → (ℕ → ℕ) → (page_cnt e_pfn align i : ℕ) → Option (Option ℕ)
search zero m page_cnt e_pfn align i = none
search (suc fuel) m page_cnt e_pfn align i =
    let on_used = search fuel m page_cnt e_pfn align (i + 1) in
    if leb e_pfn i
    then some none
    else if m i == page_used
    then on_used
    else elim (probe m e_pfn page_cnt i) [
      | found temp ↦ some (some i)
      | beyond ↦ some none
      | blocked temp ↦ search fuel m page_cnt e_pfn align ((temp + align) % 2 ^ 32)
      | hang ↦ none
    ]

-- `(s_pfn + (align_pfn - 1)) & (~align_pfn - 1)`.
unfoldable pub round_start : (s_pfn align : ℕ) → ℕ
round_start s_pfn align =
    bit_and ((s_pfn + (align + 2 ^ 32 - 1)) % 2 ^ 32) ((2 ^ 32 - 1 - align + 2 ^ 32 - 1) % 2 ^ 32)

-- The address of the pages, 0 for none. Each round of the search moves on by a page at least.
unfoldable pub find_pages : Bootmm → (page_cnt s_pfn e_pfn align : ℕ) → Option (Bootmm × ℕ)
find_pages mm page_cnt s_pfn e_pfn align = do
  page ← search (e_pfn + 1) mm.s_map page_cnt e_pfn align (round_start s_pfn align)
  elim page [
    | none ↦ some (mm, 0)
    | some i ↦ some (
      record mm {
        last_alloc_end = (i + page_cnt + 2 ^ 32 - 1) % 2 ^ 32;
        s_map = set_maps i page_cnt page_used mm.s_map;
      },
      i * 2 ^ page_shift % 2 ^ 32,
    )
  ]

-- The entry that records an allocation of `size` bytes at `res`.
unfoldable pub record_pages : Bootmm → (res size type : ℕ) → Bootmm
record_pages mm res size type = (insert_mminfo mm res ((res + size + 2 ^ 32 - 1) % 2 ^ 32) type).0

-- The second search of `bootmm_alloc_pages`, below the last allocation.
unfoldable pub retry_below : Bootmm → (nsize size type align : ℕ) → Option (Bootmm × ℕ)
retry_below mm nsize size type align = do
  (mm₂, res₂) ← find_pages mm nsize 0 mm.last_alloc_end align
  if not (res₂ == 0) then some (record_pages mm₂ res₂ size type, res₂) else some (mm₂, 0)

-- Above the last allocation first, then below it.
unfoldable pub bootmm_alloc_pages : Bootmm → (size type align : ℕ) → Option (Bootmm × ℕ)
unfolding retry_below
bootmm_alloc_pages mm size₀ type align = do
  let size = page_align ((size₀ + 2 ^ page_shift - 1) % 2 ^ 32)
  let nsize = size / 2 ^ page_shift
  (mm₁, res₁) ←
      find_pages mm nsize ((mm.last_alloc_end + 1) % 2 ^ 32) mm.max_pfn (align / 2 ^ page_shift)
  if not (res₁ == 0)
      then some (record_pages mm₁ res₁ size type, res₁)
      else retry_below mm₁ nsize size type (align / 2 ^ page_shift)
