-- ===== src/Utils/Examples.antt =====
-- The theorems on memory and strings at concrete contents.
use ninix.Utils.{kernel_memcpy}
use ninix.Utils.Memory.{kernel_memcpy_lem}
use ninix.Base.{ltb, leb, ◌==◌, if◌then◌else◌, ℕ, ◌+◌, ◌-◌, ◌≡◌, refl, ◌&&◌, ◌||◌, List, [], ◌∷◌}

-- "ab" at 10 and "ac" at 20.
abbrev words : ℕ → ℕ
words i = if (i == 10) || (i == 20) then 97 else if i == 11 then 98 else if i == 21 then 99 else 0

-- The areas from 9 and from 10 on overlap.
memcpy_example :
    kernel_memcpy 3 9 10 words 10
    ≡ (if leb 9 10 && ltb 10 12 then words (10 + (10 - 9)) else words 10)
memcpy_example = kernel_memcpy_lem 3 9 10 words 10 refl

abbrev first : List ℕ
first = 97 ∷ 98 ∷ []

abbrev second : List ℕ
second = 97 ∷ 99 ∷ []
