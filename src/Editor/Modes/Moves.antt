-- ===== src/Editor/Modes/Moves.antt =====
-- What the moves, deletions and insertions leave for the window to follow.
use ninix.Editor.{Vi, buffer_size}
use ninix.Editor.Lines.{scan_back}
use ninix.Editor.Lines.Scan.{IsLineStart, NoEnd, scan_back_lem}
use ninix.Editor.Screen.{screen_flush}
use ninix.Editor.Screen.Window.{screen_flush-le}
use ninix.Editor.Modes.Window.{Valid, Tracks, Placed, in_window, above, flushed, screen_flush-Valid}
use ninix.Base.{
  ltb, ◌==◌, if◌then◌else◌, Bool-cases, ℕ, ◌+◌, ◌-◌, ◌≤◌, ◌<◌, ◌≡◌, ap, ◌∙◌, inl, inr, false, arith,
  ℕ_discrete,
}

-- What a key leaves behind for the window to follow.
abbrev pub Kept : Vi → Type 0
Kept v = Valid v × Placed v

start_kept :
    (a b : ℕ → ℕ) (p q : ℕ)
    → q ≡ p
    → (0 < p → b (p - 1) ≡ a (p - 1))
    → IsLineStart a p
    → IsLineStart b q
start_kept a b p q e h (inl z) = inl (omega arith)
start_kept a b p q e h (inr z) = elim (ℕ_discrete p 0) [
  | yes y ↦ inl (omega arith)
  | no y ↦ inr (rw e (h (omega arith) ∙ z))
]

module _ (v : Vi) (w : Valid v) (t : Tracks v) where
  -- The cursor moves on in the text.
  pub moved_on : (p : ℕ) → v.cursor_loc ≤ p → p < v.size → Kept (record v { cursor_loc = p })
  moved_on p h l = (
    record { some_text = w.some_text; room = w.room; ends = w.ends; inside = l },
    in_window (record { start = t.start; ahead = omega (arith, t.ahead); reach = t.reach }),
  )

  window_shown : v.page_begin_loc ≤ v.page_end_loc
  window_shown = omega (
    arith,
    t.reach 0 (λ j x y. absurd (omega arith)) (omega arith) (omega (arith, t.ahead, w.inside)),
  )

  head_of_window :
      (p : ℕ)
      → p < v.page_begin_loc
      → NoEnd v.buffer p (v.cursor_loc - 1)
      → IsLineStart v.buffer v.page_begin_loc
      → scan_back (v.page_begin_loc - 1) v.buffer ≤ p
  head_of_window p h none_there (inl e) = absurd (omega arith)
  head_of_window p h none_there (inr e) =
      let at_cursor : v.cursor_loc ≤ v.page_begin_loc =
        elim (Bool-cases (ltb v.page_begin_loc v.cursor_loc)) [
          | inl q ↦ absurd (none_there (v.page_begin_loc - 1) (omega arith) (ground arith) e)
          | inr q ↦ ground arith
        ] in
      let r = scan_back_lem (v.page_begin_loc - 1) v.buffer in
      elim r.start [
        | inl z ↦ omega arith
        | inr z ↦ elim (Bool-cases (ltb p (scan_back (v.page_begin_loc - 1) v.buffer))) [
          | inl q ↦ absurd (none_there _ (ground arith) (ground (arith, r.behind, t.ahead)) z)
          | inr q ↦ ground arith
        ]
      ]

  -- It moves back to the head of the line of the character before it, or less far in this line.
  pub moved_back :
      (p : ℕ)
      → p ≤ v.cursor_loc
      → NoEnd v.buffer p (v.cursor_loc - 1)
      → Kept (record v { cursor_loc = p })
  moved_back p h none_there = (
    record {
      some_text = w.some_text;
      room = w.room;
      ends = w.ends;
      inside = omega (arith, w.inside);
    },
    elim (Bool-cases (ltb p v.page_begin_loc)) [
      | inl e ↦
          above (ground arith) window_shown (head_of_window p (ground arith) none_there t.start)
      | inr e ↦ in_window (record { start = t.start; ahead = ground arith; reach = t.reach })
    ],
  )

  -- The window began right behind the cursor.
  head_lost : (u : Vi) → u.page_begin_loc ≡ u.cursor_loc + 1 → Placed (screen_flush u)
  unfolding screen_flush
  head_lost u e =
      above (omega arith) (screen_flush-le u)
        (omega (arith, e, (scan_back_lem (u.page_begin_loc - 1) u.buffer).behind))

  -- The text has lost the character at the new cursor.
  pub shrunk-Kept :
      (u : Vi)
      → (u.size + 1 ≡ v.size)
        × ((j : ℕ)
            → j + 1 < v.size
            → u.buffer j ≡ (if ltb j u.cursor_loc then v.buffer j else v.buffer (j + 1)))
      → u.page_begin_loc ≡ v.page_begin_loc
      → u.cursor_loc + 1 < v.size
      → v.page_begin_loc ≤ u.cursor_loc + 1
      → Kept (screen_flush u)
  shrunk-Kept u (size, at) e h near =
      let j : u.size - 1 + 1 ≡ v.size - 1 = omega arith in
      let valid : Valid u = record {
        some_text = omega arith;
        room = omega (arith, w.room);
        ends =
            at (u.size - 1) (omega arith)
            ∙ (let far : ltb (u.size - 1) u.cursor_loc ≡ false = ground arith in
                rw (far, j) w.ends);
        inside = omega arith;
      } in
      let same : (i : ℕ) → i < u.cursor_loc → i + 1 < v.size → u.buffer i ≡ v.buffer i =
        λ i l i'. at i i' ∙ ground arith in
      (
        screen_flush-Valid u valid,
        elim (ℕ_discrete v.page_begin_loc (u.cursor_loc + 1)) [
          | yes y ↦ head_lost u (omega arith)
          | no y ↦ in_window (
              flushed u
                (start_kept v.buffer u.buffer v.page_begin_loc u.page_begin_loc e
                  (λ pos. same (v.page_begin_loc - 1) (omega arith) (omega arith)) t.start)
                (omega arith))
        ],
      )

  -- The text has grown by a character before the new cursor.
  pub grown-Kept :
      (u : Vi) (key : ℕ)
      → (u.size ≡ v.size + 1)
        × ((j : ℕ)
            → j ≤ v.size
            → u.buffer j ≡ (
                if ltb j v.cursor_loc
                then v.buffer j
                else if j == v.cursor_loc
                then key
                else v.buffer (j - 1)))
      → u.page_begin_loc ≡ v.page_begin_loc
      → u.cursor_loc ≡ v.cursor_loc + 1
      → v.size < buffer_size
      → Kept (screen_flush u)
  grown-Kept u key (size, at) e c room =
      let far : ltb v.size v.cursor_loc ≡ false = ground (arith, w.inside) in
      let apart : (v.size == v.cursor_loc) ≡ false = ground (arith, w.inside) in
      let valid : Valid u = record {
        some_text = omega arith;
        room = omega arith;
        ends = ap u.buffer (omega arith) ∙ at v.size (omega arith) ∙ rw (far, apart) w.ends;
        inside = omega (arith, w.inside);
      } in
      let same : (i : ℕ) → i < v.cursor_loc → u.buffer i ≡ v.buffer i =
        λ i l. at i (omega (arith, w.inside)) ∙ ground arith in
      (
        screen_flush-Valid u valid,
        in_window (
            flushed u
              (start_kept v.buffer u.buffer v.page_begin_loc u.page_begin_loc e
                (λ pos. same (v.page_begin_loc - 1) (omega (arith, t.ahead))) t.start)
              (omega (arith, t.ahead))),
      )
