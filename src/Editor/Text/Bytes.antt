-- ===== src/Editor/Text/Bytes.antt =====
-- The characters of a part of a memory as a list.
use ninix.Base.{length, ℕ, zero, suc, ◌+◌, ◌<◌, ◌≡◌, refl, ap, ap₂, ◌∙◌, List, [], ◌∷◌, ◌++◌, arith}

unfoldable pub bytes : (from len : ℕ) → (ℕ → ℕ) → List ℕ
bytes from zero b = []
bytes from (suc len) b = b from ∷ bytes (from + 1) len b

pub length-bytes : (from len : ℕ) (b : ℕ → ℕ) → length (bytes from len b) ≡ len
unfolding bytes
length-bytes from zero b = refl
length-bytes from (suc len) b = ap suc (length-bytes (from + 1) len b)

pub bytes-split :
    (from m n : ℕ) (b : ℕ → ℕ) → bytes from (m + n) b ≡ bytes from m b ++ bytes (from + m) n b
unfolding bytes
bytes-split from zero n b = ap₂ (λ i k. bytes i k b) (omega arith) (omega arith)
bytes-split from (suc m) n b =
    let e : suc m + n ≡ suc (m + n) = omega arith in
    let f : from + suc m ≡ from + 1 + m = omega arith in
    rw (e, f) (ap (λ (l : List ℕ). b from ∷ l) (bytes-split (from + 1) m n b))

-- Two memories that agree on a part each.
pub bytes_same :
    (from from' len : ℕ) (a b : ℕ → ℕ)
    → ((k : ℕ) → k < len → a (from + k) ≡ b (from' + k))
    → bytes from len a ≡ bytes from' len b
unfolding bytes
bytes_same from from' zero a b h = refl
bytes_same from from' (suc len) a b h =
    ap₂ ◌∷◌ (ap a (omega arith) ∙ h 0 (omega arith) ∙ ap b (omega arith)) (
      bytes_same (from + 1) (from' + 1) len a b
        (λ k l. ap a (omega arith) ∙ h (k + 1) (omega arith) ∙ ap b (omega arith)))

pub append_parts :
    (xs ys xs' ys' : List ℕ)
    → xs ++ ys ≡ xs' ++ ys'
    → length xs ≡ length xs'
    → (xs ≡ xs') × (ys ≡ ys')
append_parts [] ys [] ys' e l = (refl, e)
append_parts [] ys (x ∷ xs') ys' e l = absurd (omega arith)
append_parts (x ∷ xs) ys [] ys' e l = absurd (omega arith)
append_parts (x ∷ xs) ys (x' ∷ xs') ys' e l =
    let r = append_parts xs ys xs' ys' (cc) (omega arith) in (cc, r.1)
