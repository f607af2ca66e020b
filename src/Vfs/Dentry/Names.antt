-- ===== src/Vfs/Dentry/Names.antt =====
-- Names that the file systems take for the same, and their hash values.
use ninix.Vfs.Dentry.{string_sum, string_hash, upper, check_chars, generic_check_filename}
use ninix.Base.{
  ◌==◌, Bool-cases, length, word, ℕ, zero, suc, ◌+◌, ◌-◌, ◌*◌, ◌%◌, ◌≤◌, ◌<◌, ◌≡◌, refl, sym, ap,
  ap₂, ◌∙◌, ◌≢◌, ◌↔◌, inl, inr, false, List, [], ◌∷◌, ◌++◌, map, arith, ℕ_discrete,
}

no_head :
    (c d : ℕ) (s t : List ℕ) → (upper c == upper d) ≡ false → map upper (c ∷ s) ≢ map upper (d ∷ t)
no_head c d s t e z = let same : upper c ≡ upper d = cc z in ground arith

length-map : (s : List ℕ) → length (map upper s) ≡ length s
length-map [] = refl
length-map (c ∷ s) = ap suc (length-map s)

check_chars_lem :
    (s t : List ℕ) → length s ≡ length t → (check_chars s t ≡ 0) ↔ (map upper s ≡ map upper t)
unfolding check_chars
check_chars_lem [] [] h = (λ e. refl, λ e. refl)
check_chars_lem [] (d ∷ t) h = absurd (omega arith)
check_chars_lem (c ∷ s) [] h = absurd (omega arith)
check_chars_lem (c ∷ s) (d ∷ t) h =
    let (f, g) = check_chars_lem s t (omega arith) in
    elim (Bool-cases (upper c == upper d)) [
      | inl e ↦
          let same : upper c ≡ upper d = ground arith in rw e (λ z. ap₂ ◌∷◌ same (f z), λ z. g (cc))
      | inr e ↦ rw e (λ z. absurd (omega arith), λ z. absurd (no_head c d s t e z))
    ]

pub check_filename-upper :
    (s t : List ℕ) → (generic_check_filename s t ≡ 0) ↔ (map upper s ≡ map upper t)
unfolding generic_check_filename
check_filename-upper s t = elim (Bool-cases (length s == length t)) [
  | inl e ↦ rw e (check_chars_lem s t (ground arith))
  | inr e ↦ rw e (
    λ z. absurd (omega arith),
    λ z.
        let l : length s ≡ length t = sym (length-map s) ∙ ap length z ∙ length-map t in
        absurd (ground arith),
  )
]

-- Two characters are the same, or one is a small letter from a to z and the other its capital, which
-- stands 32 places before it.
pub data SameLetter (c d : ℕ) : Type 0 where
  equal : c ≡ d → SameLetter c d
  small_first : 97 ≤ c → c ≤ 122 → c ≡ d + 32 → SameLetter c d
  small_second : 97 ≤ d → d ≤ 122 → d ≡ c + 32 → SameLetter c d

pub data SameButCase : List ℕ → List ℕ → Type 0 where
  no_more : SameButCase [] []
  one_more :
      {c d : ℕ} {s t : List ℕ} → SameLetter c d → SameButCase s t → SameButCase (c ∷ s) (d ∷ t)

upper-SameLetter : (c d : ℕ) → upper c ≡ upper d → SameLetter c d
unfolding upper
upper-SameLetter c d e = elim (ℕ_discrete c d) [
  | yes y ↦ equal y
  | no n ↦ elim (ℕ_discrete c (d + 32)) [
    | yes y ↦ small_first (ground arith) (ground arith) y
    | no m ↦ small_second (ground arith) (ground arith) (ground arith)
  ]
]

SameLetter-upper : {c d : ℕ} → SameLetter c d → upper c ≡ upper d
unfolding upper
SameLetter-upper (equal e) = ap upper e
SameLetter-upper (small_first l u e) = ground arith
SameLetter-upper (small_second l u e) = ground arith

upper-SameButCase : (s t : List ℕ) → map upper s ≡ map upper t → SameButCase s t
upper-SameButCase [] [] e = no_more
upper-SameButCase [] (d ∷ t) e = absurd (ground arith)
upper-SameButCase (c ∷ s) [] e = absurd (ground arith)
upper-SameButCase (c ∷ s) (d ∷ t) e =
    one_more (upper-SameLetter c d (cc e)) (upper-SameButCase s t (cc e))

SameButCase-upper : {s t : List ℕ} → SameButCase s t → map upper s ≡ map upper t
SameButCase-upper no_more = refl
SameButCase-upper (one_more c s) = ap₂ ◌∷◌ (SameLetter-upper c) (SameButCase-upper s)

-- `generic_check_filename` answers 0 exactly for two names of the same length whose characters are, place
-- by place, the same or one a letter from a to z and the other the capital of it.
pub generic_check_filename_lem : (s t : List ℕ) → (generic_check_filename s t ≡ 0) ↔ SameButCase s t
generic_check_filename_lem s t =
    let (f, g) = check_filename-upper s t in
    (λ e. upper-SameButCase s t (f e), λ c. g (SameButCase-upper c))

map-append_upper : (s t : List ℕ) → map upper (s ++ t) ≡ map upper s ++ map upper t
map-append_upper [] t = refl
map-append_upper (c ∷ s) t = ap (λ (l : List ℕ). upper c ∷ l) (map-append_upper s t)

upper_case : (c : ℕ) → b'a' ≤ c → c ≤ b'z' → upper c ≡ upper (c - 32)
unfolding upper
upper_case c l u = ground arith

-- One more character, within the first 24.
string_sum-snoc :
    (rounds : ℕ) (s : List ℕ) (c sum : ℕ)
    → length s < rounds
    → string_sum rounds (s ++ c ∷ []) sum ≡ (string_sum rounds s sum * 2 % word + c) % word
unfolding string_sum
string_sum-snoc zero s c sum h = absurd (omega arith)
string_sum-snoc (suc zero) [] c sum h = refl
string_sum-snoc (suc (suc rounds)) [] c sum h = refl
string_sum-snoc (suc rounds) (d ∷ s) c sum h = string_sum-snoc rounds s c _ (omega arith)

-- Two names of less than 24 characters that differ in the case of the last letter alone are the same to
-- `generic_check_filename`, and `__stringHash` puts them into different buckets of the table.
pub string_hash_case :
    (s : List ℕ) (c : ℕ)
    → length s < 24
    → b'a' ≤ c
    → c ≤ b'z'
    → (generic_check_filename (s ++ c ∷ []) (s ++ (c - 32) ∷ []) ≡ 0)
      × (string_hash (s ++ c ∷ []) 64 ≢ string_hash (s ++ (c - 32) ∷ []) 64)
unfolding string_hash
string_hash_case s c h l u = (
  (check_filename-upper _ _).1 (
      map-append_upper s (c ∷ [])
      ∙ ap (λ x. map upper s ++ x ∷ []) (upper_case c l u)
      ∙ sym (map-append_upper s ((c - 32) ∷ []))),
  λ e. omega (arith, e, string_sum-snoc 24 s c 0 h, string_sum-snoc 24 s (c - 32) 0 h),
)
