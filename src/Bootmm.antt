-- ===== src/Bootmm.antt =====
-- The boot-time page allocator of kernel/mm/mybootmm.c and include/zjunix/bootmm.h.
pub mod Find
pub mod Info
pub mod Init
mod Examples
use ninix.Base.{update, ℕ, zero, suc, ◌+◌, ◌-◌, ◌*◌, ◌/◌, ◌%◌, ◌^◌}

abbrev pub page_shift : ℕ
page_shift = 12

abbrev pub page_free : ℕ
page_free = 0x00

abbrev pub page_used : ℕ
page_used = 0xff

abbrev pub max_info : ℕ
max_info = 10

-- `& PAGE_ALIGN`, which clears the twelve low bits.
abbrev pub page_align : ℕ → ℕ
page_align x = x / 2 ^ page_shift * 2 ^ page_shift

-- `x - 1` on an `unsigned int`.
abbrev pub minus_one : ℕ → ℕ
minus_one x = (x + 2 ^ 32 - 1) % 2 ^ 32

pub record BootmmInfo : Type 0 where
  pub start : ℕ
  pub end : ℕ
  pub type : ℕ

-- `s_map` is the memory from the map on, and `info` the array with what lies behind it.
pub record Bootmm : Type 0 where
  pub phymm : ℕ
  pub max_pfn : ℕ
  pub s_map : ℕ → ℕ
  pub last_alloc_end : ℕ
  pub cnt_infos : ℕ
  pub info : ℕ → BootmmInfo

abbrev pub set_mminfo : (ℕ → BootmmInfo) → (i start end type : ℕ) → ℕ → BootmmInfo
set_mminfo info i start end type = update info i (record { start = start; end = end; type = type })

-- `while (cnt) { s_map[s_pfn] = value; … }`.
unfoldable pub set_maps : (s_pfn cnt value : ℕ) → (ℕ → ℕ) → ℕ → ℕ
set_maps s_pfn zero value m = m
set_maps s_pfn (suc cnt) value m = set_maps (s_pfn + 1) cnt value (update m s_pfn value)
