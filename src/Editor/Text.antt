-- ===== src/Editor/Text.antt =====
-- The text in the buffer as a list of characters, and what `insert_key` and `delete_key` make of it.
pub mod Bytes
use ninix.Editor.{Vi, key_spc, buffer_size, shift_right, shift_left, insert_key, delete_key}
use ninix.Editor.Text.Bytes.{bytes, bytes-split, bytes_same, append_parts, length-bytes}
use ninix.Base.{
  ltb, leb, ◌==◌, if◌then◌else◌, update, length, length-append, ℕ, zero, suc, ◌+◌, ◌-◌, ◌≤◌, ◌<◌,
  ◌≡◌, sym, ap, ap₂, ◌∙◌, false, ◌&&◌, List, ◌∷◌, ◌++◌, arith,
}

abbrev pub text : Vi → List ℕ
text v = bytes 0 v.size v.buffer

shift_right_lem :
    (n site : ℕ) (b : ℕ → ℕ) (j : ℕ)
    → shift_right n site b j ≡ (if ltb site j && leb j n then b (j - 1) else b j)
unfolding shift_right
shift_right_lem zero site b j = ground arith
shift_right_lem (suc n) site b j = ground (arith, shift_right_lem n site (update b (n + 1) (b n)) j)

shift_left_lem :
    (rounds i : ℕ) (b : ℕ → ℕ) (j : ℕ)
    → shift_left rounds i b j ≡ (if leb i j && ltb j (i + rounds) then b (j + 1) else b j)
unfolding shift_left
shift_left_lem zero i b j = ground arith
shift_left_lem (suc rounds) i b j =
    ground (arith, shift_left_lem rounds (i + 1) (update b i (b (i + 1))) j)

-- Every character after an insertion.
pub insert_key_bytes :
    (key site : ℕ) (v : Vi)
    → v.size < buffer_size
    → site ≤ v.size
    → ((insert_key key site v).size ≡ v.size + 1)
      × ((j : ℕ)
          → j ≤ v.size
          → (insert_key key site v).buffer j
            ≡ (if ltb j site then v.buffer j else if j == site then key else v.buffer (j - 1)))
unfolding insert_key
insert_key_bytes key site v h k =
    let e : (v.size == 4096) ≡ false = ground arith in
    (rw e (omega arith), λ j l. rw e (ground (arith, shift_right_lem v.size site v.buffer j)))

-- And after a deletion.
pub delete_key_bytes :
    (site : ℕ) (v : Vi)
    → site < v.size
    → ((delete_key site v).size + 1 ≡ v.size)
      × ((j : ℕ)
          → j + 1 < v.size
          → (delete_key site v).buffer j ≡ (if ltb j site then v.buffer j else v.buffer (j + 1)))
unfolding delete_key
delete_key_bytes site v h =
    let e : (v.size == 0) ≡ false = ground arith in
    (
      rw e (omega arith),
      λ j l. rw e (ground (arith, shift_left_lem (v.size - 1 - site) site v.buffer j)),
    )

module _ (v : Vi) (xs ys : List ℕ) where
  text-parts :
      text v ≡ xs ++ ys
      → (v.size ≡ length xs + length ys)
        × (bytes 0 (length xs) v.buffer ≡ xs)
        × (bytes (0 + length xs) (length ys) v.buffer ≡ ys)
  text-parts e =
      let s = length xs in
      let r = length ys in
      let size : v.size ≡ s + r =
        sym (length-bytes 0 v.size v.buffer) ∙ ap length e ∙ length-append xs ys in
      let (front, back) =
        append_parts (bytes 0 s v.buffer) (bytes (0 + s) r v.buffer) xs ys
          (sym (bytes-split 0 s r v.buffer) ∙ ap (λ n. bytes 0 n v.buffer) (sym size) ∙ e)
          (length-bytes 0 s v.buffer) in
      (size, front, back)

  -- On a buffer that is not full, `insert_key` at the end of a first part of the text puts the
  -- character between this part and the rest.
  pub insert_key_lem :
      (key : ℕ)
      → v.size < buffer_size
      → text v ≡ xs ++ ys
      → text (insert_key key (length xs) v) ≡ xs ++ key ∷ ys
  unfolding bytes
  insert_key_lem key h e =
      let s = length xs in
      let r = length ys in
      let (size, front, back) = text-parts e in
      let (size', at) = insert_key_bytes key s v h (omega arith) in
      let w = insert_key key s v in
      ap (λ n. bytes 0 n w.buffer) (size' ∙ omega arith)
      ∙ bytes-split 0 s (suc r) w.buffer
      ∙ ap₂ ◌++◌
          (bytes_same 0 0 s w.buffer v.buffer (λ k l. at (0 + k) (omega arith) ∙ ground arith)
            ∙ front)
          (ap₂ ◌∷◌ (at (0 + s) (omega arith) ∙ ground arith) (
            bytes_same (0 + s + 1) (0 + s) r w.buffer v.buffer
              (λ k l. at (0 + s + 1 + k) (omega arith) ∙ ground arith)
            ∙ back))

-- `delete_key` at the end of a first part of the text takes the character behind this part out.
pub delete_key_lem :
    (v : Vi) (xs ys : List ℕ) (c : ℕ)
    → text v ≡ xs ++ c ∷ ys
    → text (delete_key (length xs) v) ≡ xs ++ ys
unfolding bytes
delete_key_lem v xs ys c e =
    let s = length xs in
    let r = length ys in
    let (size, front, back) = text-parts v xs (c ∷ ys) e in
    let (size', at) = delete_key_bytes s v (omega arith) in
    let w = delete_key s v in
    let rest : bytes (0 + s + 1) r v.buffer ≡ ys = cc in
    let short : w.size ≡ s + r = omega arith in
    ap (λ n. bytes 0 n w.buffer) short
    ∙ bytes-split 0 s r w.buffer
    ∙ ap₂ ◌++◌
        (bytes_same 0 0 s w.buffer v.buffer (λ k l. at (0 + k) (omega arith) ∙ ground arith)
          ∙ front)
        (bytes_same (0 + s) (0 + s + 1) r w.buffer v.buffer
            (λ k l. at (0 + s + k) (omega arith) ∙ ground arith)
          ∙ rest)
