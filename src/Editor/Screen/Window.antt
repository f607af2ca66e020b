-- ===== src/Editor/Screen/Window.antt =====
-- How far the window reaches: one character takes four columns at most.
use ninix.Editor.{Vi, row_len, col_len, key_enter_n}
use ninix.Editor.Screen.{advance, show, screen_flush}
use ninix.Editor.Lines.Scan.{NoEnd}
use native.Mathlib.Nat.{le_trans}
use ninix.Base.{
  ltb, Bool-cases, ℕ, zero, suc, ◌+◌, ◌-◌, ◌*◌, ◌≤◌, ◌<◌, ◌≡◌, ◌≢◌, inl, inr, true, ◌&&◌, arith,
}

advance_lem :
    (c row col : ℕ)
    → c ≢ key_enter_n
    → col < col_len
    → let p = advance c row col in (p.1 < col_len) × (p.0 * col_len + p.1 ≤ row * col_len + col + 4)
unfolding advance
advance_lem c row col h l = ground arith

show-le : (fuel row col loc : ℕ) (v : Vi) (m : ℕ → ℕ) → loc ≤ (show fuel row col loc v m).1
unfolding show
show-le zero row col loc v m = omega arith
show-le (suc fuel) row col loc v m = elim (Bool-cases (ltb row row_len && ltb loc v.size)) [
  | inl e ↦ rw e (le_trans (omega arith) (show-le fuel _ _ (loc + 1) v _))
  | inr e ↦ rw e (omega arith)
]

-- A character that is close enough in the same line is shown.
show_reaches :
    (k fuel row col loc : ℕ) (v : Vi) (m : ℕ → ℕ)
    → NoEnd v.buffer loc (loc + k)
    → col < col_len
    → row * col_len + col + 4 * k < row_len * col_len
    → loc + k < v.size
    → k < fuel
    → loc + k < (show fuel row col loc v m).1
unfolding show
show_reaches k zero row col loc v m h c room l f = absurd (omega arith)
show_reaches zero (suc fuel) row col loc v m h c room l f =
    let e : (ltb row row_len && ltb loc v.size) ≡ true = ground arith in
    rw e (le_trans (omega arith) (show-le fuel _ _ (loc + 1) v _))
show_reaches (suc k) (suc fuel) row col loc v m h c room l f =
    let e : (ltb row row_len && ltb loc v.size) ≡ true = ground arith in
    let (narrow, near) = advance_lem (v.buffer loc) row col (h loc (omega arith) (omega arith)) c in
    let on : loc + 1 + k ≡ loc + suc k = omega arith in
    rw (e, ← on)
      (show_reaches k fuel _ _ (loc + 1) v _ (λ j x y. h j (omega arith) (omega arith)) narrow
        (omega arith) (omega arith) (omega arith))

pub screen_flush_reaches :
    (v : Vi) (k : ℕ)
    → NoEnd v.buffer v.page_begin_loc (v.page_begin_loc + k)
    → k < 580
    → v.page_begin_loc + k < v.size
    → v.page_begin_loc + k < (screen_flush v).page_end_loc
unfolding screen_flush
screen_flush_reaches v k h c l =
    show_reaches k (v.size - v.page_begin_loc) 0 0 v.page_begin_loc v v.vram h (omega arith)
      (omega arith) l (omega arith)

pub screen_flush-le : (v : Vi) → v.page_begin_loc ≤ (screen_flush v).page_end_loc
unfolding screen_flush
screen_flush-le v = show-le (v.size - v.page_begin_loc) 0 0 v.page_begin_loc v v.vram
