-- ===== src/Utils.antt =====
-- The memory and string routines of utils/utils.c. The memory is a byte at every address; a `char` is
-- given by its 8 bits, and it is signed on this machine.
pub mod Memory
pub mod Strings
mod Examples
use ninix.Base.{
  leb, ◌==◌, if◌then◌else◌, update, ℕ, zero, suc, ◌+◌, ◌-◌, ◌*◌, ◌%◌, ◌^◌, bit_and, Bool, not, ◌&&◌,
  Option, none, some,
}

unfoldable pub kernel_memcpy : (len dest src : ℕ) → (ℕ → ℕ) → ℕ → ℕ
kernel_memcpy zero dest src m = m
kernel_memcpy (suc len) dest src m = kernel_memcpy len (dest + 1) (src + 1) (update m dest (m src))

-- `while (len--) *dest++ = content;`.
unfoldable pub fill : (len dest content : ℕ) → (ℕ → ℕ) → ℕ → ℕ
fill zero dest content m = m
fill (suc len) dest content m = fill len (dest + 1) content (update m dest content)

-- `char content = b ? -1 : 0;`.
unfoldable pub kernel_memset : (dest b len : ℕ) → (ℕ → ℕ) → ℕ → ℕ
unfolding fill
kernel_memset dest b len m = fill len dest (if b == 0 then 0 else 255) m

-- A signed `char` as the 32 bits of an `int`.
unfoldable pub sign_extend : ℕ → ℕ
sign_extend c = if leb 128 c then 2 ^ 32 - 256 + c else c

-- `none`: the strings agree for more characters than there is fuel.
unfoldable pub kernel_strcmp : ℕ → (dest src : ℕ) → (ℕ → ℕ) → Option ℕ
unfolding sign_extend
kernel_strcmp zero dest src m = none
kernel_strcmp (suc fuel) dest src m =
    let rest = kernel_strcmp fuel (dest + 1) (src + 1) m in
    if (m dest == m src) && not (m dest == 0)
    then rest
    else some ((sign_extend (m dest) + 2 ^ 32 - sign_extend (m src)) % 2 ^ 32)

-- The memory and the pointer behind the copied zero, `none` if there is no zero within the fuel.
unfoldable pub kernel_strcpy : ℕ → (dest src : ℕ) → (ℕ → ℕ) → Option ((ℕ → ℕ) × ℕ)
kernel_strcpy zero dest src m = none
kernel_strcpy (suc fuel) dest src m =
    let rest = kernel_strcpy fuel (dest + 1) (src + 1) (update m dest (m src)) in
    if m src == 0 then some (update m dest (m src), dest + 1) else rest

-- `while (z--) ret *= x;` on the 32 bits of an `int`.
unfoldable pub pow_loop : (z x ret : ℕ) → ℕ
pow_loop zero x ret = ret
pow_loop (suc z) x ret = pow_loop z x (ret * x % 2 ^ 32)

unfoldable pub pow : (x z : ℕ) → ℕ
unfolding pow_loop
pow x z = if leb (2 ^ 31) z then 2 ^ 32 - 1 else pow_loop z x 1

-- 1 for a multiple of a power of two.
unfoldable pub is_bound : (val bound : ℕ) → Bool
is_bound val bound = bit_and val ((bound + 2 ^ 32 - 1) % 2 ^ 32) == 0
