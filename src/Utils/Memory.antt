-- ===== src/Utils/Memory.antt =====
-- What is in memory after a copy and a fill.
use ninix.Utils.{kernel_memcpy, fill, kernel_memset}
use ninix.Base.{
  ltb, leb, ◌==◌, if◌then◌else◌, update, ℕ, zero, suc, ◌+◌, ◌-◌, ◌≡◌, true, ◌&&◌, ◌||◌, arith,
}

-- `kernel_memcpy` to an address that is not above the source, or of an area that ends before the
-- destination: each byte of the destination is what was at its place in the source before, and no
-- other byte changes.
pub kernel_memcpy_lem :
    (len dest src : ℕ) (m : ℕ → ℕ) (j : ℕ)
    → (leb dest src || leb (src + len) dest) ≡ true
    → kernel_memcpy len dest src m j
      ≡ (if leb dest j && ltb j (dest + len) then m (src + (j - dest)) else m j)
unfolding kernel_memcpy
kernel_memcpy_lem zero dest src m j h = ground arith
kernel_memcpy_lem (suc len) dest src m j h =
    ground
      (arith, kernel_memcpy_lem len (dest + 1) (src + 1) (update m dest (m src)) j (ground arith))

fill_lem :
    (len dest content : ℕ) (m : ℕ → ℕ) (j : ℕ)
    → fill len dest content m j ≡ (if leb dest j && ltb j (dest + len) then content else m j)
unfolding fill
fill_lem zero dest content m j = ground arith
fill_lem (suc len) dest content m j =
    ground (arith, fill_lem len (dest + 1) content (update m dest content) j)

-- `kernel_memset` writes one value to each byte of the area and changes no other: 0 where it is asked
-- for 0, and 255 for every other value.
pub kernel_memset_lem :
    (dest b len : ℕ) (m : ℕ → ℕ) (j : ℕ)
    → kernel_memset dest b len m j
      ≡ (if leb dest j && ltb j (dest + len) then (if b == 0 then 0 else 255) else m j)
unfolding kernel_memset
kernel_memset_lem dest b len m j = fill_lem len dest (if b == 0 then 0 else 255) m j
