-- ===== src/Bootmm/Init.antt =====
-- `init_bootmm`.
pub mod Kept
use ninix.Bootmm.{Bootmm, page_shift, page_free, page_used, set_maps}
use ninix.Bootmm.Info.{insert_mminfo}
use ninix.Base.{ltb, if◌then◌else◌, ℕ, ◌-◌, ◌*◌, ◌/◌, ◌^◌}

-- The bytes of the kernel image, and the type of its area.
abbrev pub kernel_end : ℕ
kernel_end = 16 * 1024 * 1024

abbrev pub mm_kernel : ℕ
mm_kernel = 0

-- `MACHINE_MMSIZE >> PAGE_SHIFT`, a byte for each page of 128 MB.
abbrev pub map_size : ℕ
map_size = 128 * 1024 * 1024 / 2 ^ 12

-- `kernel_memset(bmm.s_map, PAGE_FREE, sizeof(bootmmmap))` and the loop over the kernel's pages write
-- runs of bytes, as `set_maps` does. The answer of `get_phymm_size` is `phymm`.
unfoldable pub init_bootmm : Bootmm → ℕ → Bootmm
init_bootmm mm phymm =
    let empty : Bootmm = record {
      phymm = phymm;
      max_pfn = phymm / 2 ^ page_shift;
      s_map = set_maps 0 map_size page_free mm.s_map;
      last_alloc_end = 0;
      cnt_infos = 0;
      info = λ i. if ltb i 10 then record { start = 0; end = 0; type = 0 } else mm.info i;
    } in
    let m = (insert_mminfo empty 0 (kernel_end - 1) mm_kernel).0 in
    record m {
      last_alloc_end = kernel_end / 2 ^ page_shift - 1;
      s_map = set_maps 0 (kernel_end / 2 ^ page_shift) page_used m.s_map;
    }
