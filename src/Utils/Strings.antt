-- ===== src/Utils/Strings.antt =====
-- Zero-terminated strings.
use ninix.Utils.{sign_extend, kernel_memcpy, kernel_strcmp, kernel_strcpy}
use ninix.Base.{
  ltb, leb, ◌==◌, Bool-cases, update, length, ℕ, zero, suc, ◌+◌, ◌-◌, ◌%◌, ◌^◌, ◌<◌, ◌≡◌, refl, ap,
  ◌∙◌, ◌≢◌, ◌↔◌, inl, inr, true, false, not, ◌&&◌, ◌||◌, some, List, [], ◌∷◌, arith,
}

-- At `p` stand the characters `cs`, none of them zero, and then a zero.
abbrev pub Text : (ℕ → ℕ) → ℕ → List ℕ → Type 0
Text m p [] = m p ≡ 0
Text m p (c ∷ cs) = (m p ≡ c) × (c ≢ 0) × Text m (p + 1) cs

-- A write outside of a text leaves it.
Text-update :
    (m : ℕ → ℕ) (p : ℕ) (cs : List ℕ) (a v : ℕ)
    → (ltb a p || leb (p + length cs + 1) a) ≡ true
    → Text m p cs
    → Text (update m a v) p cs
Text-update m p [] a v h t = ground (arith, t)
Text-update m p (c ∷ cs) a v h (e, ne, t) =
    (ground (arith, e), ne, Text-update m (p + 1) cs a v (ground arith) t)

-- Of a text that does not begin below the destination and reach into it, `kernel_strcpy` copies the
-- characters and the zero, as `kernel_memcpy` does it with the length, and answers the address
-- behind them; one round more than there are characters is enough.
pub kernel_strcpy_lem :
    (fuel dest src : ℕ) (m : ℕ → ℕ) (cs : List ℕ)
    → Text m src cs
    → length cs < fuel
    → (leb dest src || leb (src + length cs + 1) dest) ≡ true
    → kernel_strcpy fuel dest src m
      ≡ some (kernel_memcpy (suc (length cs)) dest src m, dest + suc (length cs))
unfolding kernel_strcpy kernel_memcpy
kernel_strcpy_lem zero dest src m cs t lt h = absurd (omega arith)
kernel_strcpy_lem (suc fuel) dest src m [] t lt h =
    let z : (m src == 0) ≡ true = ground (arith, t) in rw z refl
kernel_strcpy_lem (suc fuel) dest src m (c ∷ cs) (e, ne, t) lt h =
    let z : (m src == 0) ≡ false = ground (arith, e, ne) in
    let m' = update m dest (m src) in
    let over : dest + 1 + suc (length cs) ≡ dest + suc (suc (length cs)) = omega arith in
    rw z (
      kernel_strcpy_lem fuel (dest + 1) (src + 1) m' cs
        (Text-update m (src + 1) cs dest (m src) (ground arith) t) (omega arith) (ground arith)
      ∙ ap (λ (k : ℕ). some (kernel_memcpy (suc (length cs)) (dest + 1) (src + 1) m', k)) over)

-- Bytes as signed numbers differ as they do as bytes.
sign_extend_lem :
    (a b : ℕ)
    → a < 256
    → b < 256
    → ((sign_extend a + 2 ^ 32 - sign_extend b) % 2 ^ 32 == 0) ≡ (a == b)
unfolding sign_extend
sign_extend_lem a b la lb = ground arith

-- The comparison stops at the first characters `a` and `b`, which are not the same.
differ :
    (a b : ℕ) (xs ys : List ℕ)
    → a < 256
    → b < 256
    → (a == b) ≡ false
    → (xs ≢ ys)
    → ((sign_extend a + 2 ^ 32 - sign_extend b) % 2 ^ 32 ≡ 0) ↔ (xs ≡ ys)
differ a b xs ys la lb ne apart =
    (λ z. absurd (ground (arith, sign_extend_lem a b la lb)), λ h. absurd (apart h))

-- Of two texts of bytes, `kernel_strcmp` comes to an end, with one round more than the first has
-- characters, and answers 0 exactly if they are the same.
pub kernel_strcmp_lem :
    (fuel p q : ℕ) (m : ℕ → ℕ) (xs ys : List ℕ)
    → ((a : ℕ) → m a < 256)
    → Text m p xs
    → Text m q ys
    → length xs < fuel
    → (r : ℕ) × (kernel_strcmp fuel p q m ≡ some r) × ((r ≡ 0) ↔ (xs ≡ ys))
unfolding kernel_strcmp
kernel_strcmp_lem zero p q m xs ys bytes t u lt = absurd (omega arith)
kernel_strcmp_lem (suc fuel) p q m [] [] bytes t u lt =
    let z : ((m p == m q) && not (m p == 0)) ≡ false = ground (arith, t, u) in
    rw z (
      _,
      refl,
      (λ h. refl, λ h. ground (arith, sign_extend_lem (m p) (m q) (bytes p) (bytes q), t, u)),
    )
kernel_strcmp_lem (suc fuel) p q m [] (y ∷ ys) bytes t (e, ne, u) lt =
    let d : (m p == m q) ≡ false = ground (arith, t, e, ne) in
    rw d (_, refl, differ (m p) (m q) [] (y ∷ ys) (bytes p) (bytes q) d (λ h. cc))
kernel_strcmp_lem (suc fuel) p q m (x ∷ xs) [] bytes (e, ne, t) u lt =
    let d : (m p == m q) ≡ false = ground (arith, u, e, ne) in
    rw d (_, refl, differ (m p) (m q) (x ∷ xs) [] (bytes p) (bytes q) d (λ h. cc))
kernel_strcmp_lem (suc fuel) p q m (x ∷ xs) (y ∷ ys) bytes (e, ne, t) (e', ne', u) lt =
    elim (Bool-cases (m p == m q)) [
      | inl same ↦
          let z : (m p == 0) ≡ false = ground (arith, e, ne) in
          let (r, f, (to, from)) =
            kernel_strcmp_lem fuel (p + 1) (q + 1) m xs ys bytes t u (omega arith) in
          let h : x ≡ y = ground (arith, e, e') in
          rw (same, z) (r, f, (λ k. let tails : xs ≡ ys = to k in cc, λ k. from cc))
      | inr d ↦ rw d (
        _,
        refl,
        differ (m p) (m q) (x ∷ xs) (y ∷ ys) (bytes p) (bytes q) d
            (λ h. absurd (ground (arith, e, e'))),
      )
    ]
