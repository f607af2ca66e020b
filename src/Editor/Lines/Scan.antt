-- ===== src/Editor/Lines/Scan.antt =====
-- Where the searches for the ends of a line stop, and where the cursor goes.
use ninix.Editor.{Vi, before, key_enter_n, buffer_size}
use ninix.Editor.Lines.{scan_back, scan_on, next_line, cursor_last_line, cursor_next_line}
use ninix.Base.{
  leb, ◌==◌, Bool-cases, word, ℕ, zero, suc, ◌+◌, ◌-◌, ◌%◌, ◌≤◌, ◌<◌, ◌≡◌, refl, ap, ◌∙◌, ◌≢◌, ◌⊎◌,
  inl, inr, arith, ℕ_discrete,
}

-- A line begins at `s`.
abbrev pub IsLineStart : (ℕ → ℕ) → ℕ → Type 0
IsLineStart b s = (s ≡ 0) ⊎ (b (s - 1) ≡ key_enter_n)

-- No line ends from `s` up to `p`.
abbrev pub NoEnd : (ℕ → ℕ) → (s p : ℕ) → Type 0
NoEnd b s p = (j : ℕ) → s ≤ j → j < p → b j ≢ key_enter_n

-- The line that the character at `p` is on begins at `s`.
pub record LineOf (b : ℕ → ℕ) (p s : ℕ) : Type 0 where
  pub behind : s ≤ p
  pub start : IsLineStart b s
  pub inside : NoEnd b s p

pub scan_back_lem : (n : ℕ) (b : ℕ → ℕ) → LineOf b n (scan_back n b)
unfolding scan_back
scan_back_lem zero b = record {
  behind = omega arith;
  start = inl refl;
  inside = λ j x y. absurd (omega arith);
}
scan_back_lem (suc n) b = elim (Bool-cases (b n == 10)) [
  | inl e ↦
      let p : suc n - 1 ≡ n = omega arith in
      rw e (record {
        behind = omega arith;
        start = inr (ap b p ∙ ground arith);
        inside = λ j x y. absurd (omega arith);
      })
  | inr e ↦
      let r = scan_back_lem n b in
      rw e (record {
        behind = omega (arith, r.behind);
        start = r.start;
        inside = λ j x y. elim (ℕ_discrete j n) [
          | yes q ↦ λ h. ground arith
          | no q ↦ r.inside j x (omega arith)
        ];
      })
]

pub scan_on_lem :
    (rounds loc : ℕ) (b : ℕ → ℕ)
    → (loc ≤ scan_on rounds loc b)
      × (scan_on rounds loc b ≤ loc + rounds)
      × NoEnd b loc (scan_on rounds loc b)
      × (scan_on rounds loc b < loc + rounds → b (scan_on rounds loc b) ≡ key_enter_n)
unfolding scan_on
scan_on_lem zero loc b =
    (omega arith, omega arith, λ j x y. absurd (omega arith), λ h. absurd (omega arith))
scan_on_lem (suc rounds) loc b = elim (Bool-cases (b loc == 10)) [
  | inl e ↦ rw e (omega arith, omega arith, λ j x y. absurd (omega arith), λ h. ground arith)
  | inr e ↦
      let (l, u, in_between, end) = scan_on_lem rounds (loc + 1) b in
      rw e (
        omega arith,
        omega arith,
        λ j x y. elim (ℕ_discrete j loc) [
          | yes q ↦ λ h. ground arith
          | no q ↦ in_between j (omega arith) y
        ],
        λ h. end (omega arith),
      )
]

-- `p` is the head of the line behind the one that `loc` is on, or `loc` itself on the last line of a
-- text of `size` characters.
pub data NextLine (b : ℕ → ℕ) (size loc p : ℕ) : Type 0 where
  last : p ≡ loc → NoEnd b loc (size - 1) → NextLine b size loc p
  next : loc < p → p < size → b (p - 1) ≡ key_enter_n → NoEnd b loc (p - 1) → NextLine b size loc p

pub next_line_lem :
    (loc : ℕ) (v : Vi)
    → 0 < v.size
    → v.size ≤ buffer_size
    → loc < v.size
    → NextLine v.buffer v.size loc (next_line loc v)
unfolding next_line
next_line_lem loc v pos room h =
    let e : before v.size ≡ v.size - 1 = omega arith in
    let f = scan_on (v.size - 1 - loc) loc v.buffer in
    let (l, u, in_between, end) = scan_on_lem (v.size - 1 - loc) loc v.buffer in
    elim (Bool-cases (leb (v.size - 1) f)) [
      | inl t ↦ rw (e, t) (last refl (λ j x y. in_between j x (ground arith)))
      | inr t ↦
          let small : f + 1 < v.size = ground arith in
          let same : (f + 1) % word ≡ f + 1 = omega arith in
          rw (e, t, same)
            (next (omega arith) small (ap v.buffer (omega arith) ∙ end (omega arith))
              (λ j x y. in_between j x (omega arith)))
    ]

-- `cursor_next_line`, in a text that is not empty and fits the buffer, with the cursor in it, goes to
-- the head of the next line, or stays on the last one.
pub cursor_next_line_lem :
    (v : Vi)
    → 0 < v.size
    → v.size ≤ buffer_size
    → v.cursor_loc < v.size
    → NextLine v.buffer v.size v.cursor_loc (cursor_next_line v).cursor_loc
unfolding cursor_next_line
cursor_next_line_lem v pos room h = next_line_lem v.cursor_loc v pos room h

-- `cursor_last_line` goes to the head of the line that the character before the cursor is on, and
-- stays at the head of the text.
pub cursor_last_line_lem :
    (v : Vi) → LineOf v.buffer (v.cursor_loc - 1) (cursor_last_line v).cursor_loc
unfolding cursor_last_line
cursor_last_line_lem v =
    let r = scan_back_lem v.cursor_loc v.buffer in
    elim (Bool-cases (scan_back v.cursor_loc v.buffer == 0)) [
      | inl e ↦ rw e (record {
        behind = omega arith;
        start = inl refl;
        inside = λ j x y. r.inside j (ground arith) (omega arith);
      })
      | inr e ↦ rw e (elim (Bool-cases (scan_back v.cursor_loc v.buffer == v.cursor_loc)) [
        | inl f ↦ rw f (scan_back_lem (v.cursor_loc - 1) v.buffer)
        | inr f ↦ rw f (record {
          behind = ground (arith, r.behind);
          start = r.start;
          inside = λ j x y. r.inside j x (omega arith);
        })
      ])
    ]
