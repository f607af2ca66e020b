-- ===== src/Vfs/File/Loop.antt =====
-- The loop of a read over pages that are in the cache.
use ninix.Utils.Memory.{kernel_memcpy_lem}
use ninix.Vfs.Cache.{pcache_look_up}
use ninix.Vfs.File.{FileSystem, Store, general_find_page, begin_off, end_off, span}
use ninix.Vfs.File.Input.{copy_out, read_loop}
use ninix.Vfs.File.Page.{
  place, place_bound, place_end, pages_up, begin_off-place, end_off-place, end_off-bound,
  begin_off-end_off,
}
use ninix.Vfs.File.Cached.{Held, Found, look_up-Found, Held-kept}
use ninix.Base.{
  ltb, leb, ◌==◌, if◌then◌else◌, word, ℕ, zero, suc, ◌+◌, ◌-◌, ◌/◌, ◌%◌, ◌≤◌, ◌<◌, ◌≡◌, refl, ap,
  ◌∙◌, Bool, true, false, ◌&&◌, ◌||◌, some, arith,
}

if_then : (b : Bool) (x y z : ℕ) → (b ≡ true → x ≡ y) → (if b then x else z) ≡ (if b then y else z)
if_then true x y z f = f refl
if_then false x y z f = refl

not_inside :
    (buf len n goal j : ℕ)
    → buf + len + n ≤ goal
    → (leb buf j && ltb j goal) ≡ false
    → (leb (buf + len) j && ltb j (buf + len + n)) ≡ false
not_inside buf len n goal j l e = ground arith

-- Two parts of the buffer that follow each other.
joined :
    (buf len n goal j x y : ℕ)
    → buf + len + n ≤ goal
    → (if leb (buf + (len + n)) j && ltb j goal
        then x
        else (if leb (buf + len) j && ltb j (buf + len + n) then x else y))
      ≡ (if leb (buf + len) j && ltb j goal then x else y)
joined buf len n goal j x y l = ground arith

find-Found :
    {D : Type 0} (fs : FileSystem D) (ppn inode : ℕ) (s : Store D)
    → Found ppn inode s (pcache_look_up ppn inode s.pages)
    → general_find_page fs ppn inode s
      ≡ some (
        record s { pages = (pcache_look_up ppn inode s.pages).0 },
        (pcache_look_up ppn inode s.pages).1,
      )
unfolding general_find_page
find-Found fs ppn inode s f = rw f.known refl

module _ {D : Type 0} (fs : FileSystem D) (inode page_size : ℕ) (byte block : ℕ → ℕ)
    (f_pos last buf : ℕ) (some_size : 0 < page_size) (small : page_size < word) (up : f_pos ≤ last)
    (limit : last + 1 < word) where
  abbrev goal : ℕ
  goal = buf + (last + 1 - f_pos)

  abbrev Whole : Store D → Type 0
  Whole s = Held fs inode page_size byte block (f_pos / page_size) (last / page_size) buf goal s

  -- Page `v` goes to the buffer at `len`.
  abbrev after : (v len : ℕ) → Store D → Store D
  after v len s =
      let r = pcache_look_up (block v) inode s.pages in
      copy_out fs page_size f_pos last v r.1 buf len (record s { pages = r.0 })

  module _ (s : Store D) (h : Whole s) (v len : ℕ) (l : f_pos / page_size ≤ v)
      (u : v ≤ last / page_size) (at : len + f_pos ≡ place page_size f_pos last v) where
    span_lem :
        span (begin_off page_size f_pos v) (end_off page_size last v)
        ≡ end_off page_size last v + 1 - begin_off page_size f_pos v
    span_lem =
        let a = begin_off-end_off page_size f_pos last v u some_size up l in
        let b = end_off-bound page_size f_pos last v u some_size in omega arith

    step_at :
        (len + span (begin_off page_size f_pos v) (end_off page_size last v)) + f_pos
        ≡ place page_size f_pos last (v + 1)
    step_at =
        let a = begin_off-end_off page_size f_pos last v u some_size up l in
        let b = begin_off-place page_size f_pos last v u in
        let c = end_off-place page_size f_pos last v u some_size l in
        rw span_lem (omega (arith, a, at, b, c))

    bytes_lem :
        (j : ℕ)
        → (after v len s).mem j ≡ (
            if leb (buf + len) j
              && ltb j (buf + len + span (begin_off page_size f_pos v) (end_off page_size last v))
            then byte (f_pos + (j - buf))
            else s.mem j)
    bytes_lem j =
        let f = look_up-Found fs inode page_size byte block _ _ buf goal s h v l u in
        let q = (pcache_look_up (block v) inode s.pages).1 in
        let b = begin_off page_size f_pos v in
        let n = span b (end_off page_size last v) in
        let p = (s.pages.pages q).p_data in
        let below = place_bound page_size f_pos last (v + 1) some_size up in
        let a = h.apart v q l u f.used f.one in
        let short = begin_off-end_off page_size f_pos last v u some_size up l in
        let e = end_off-bound page_size f_pos last v u some_size in
        let start = begin_off-place page_size f_pos last v u in
        let stop : len + n ≤ last + 1 - f_pos = omega (arith, step_at, below) in
        let size = span_lem in
        let side : (leb (buf + len) (p + b) || leb (p + b + n) (buf + len)) ≡ true =
          ground (arith) in
        let rest : (leb (buf + len) j && ltb j (buf + len + n)) ≡ true
            → s.mem (p + b + (j - (buf + len))) ≡ byte (f_pos + (j - buf)) =
          λ t.
            ap s.mem (ground arith)
            ∙ h.content v q (b + (j - (buf + len))) l u f.used f.one (ground arith)
            ∙ ap byte (ground arith) in
        rw f.same_pages
          (kernel_memcpy_lem n (buf + len) (p + b) s.mem j side ∙ if_then _ _ _ _ rest)

  data_found :
      (s : Store D)
      → Whole s
      → (v : ℕ) → f_pos / page_size ≤ v
      → v ≤ last / page_size
      → let r = pcache_look_up (block v) inode s.pages in ((r.0.pages r.1).p_data == 0) ≡ false
  data_found s h v l u =
      let f = look_up-Found fs inode page_size byte block _ _ buf goal s h v l u in
      rw f.same_pages (ground (arith, h.allocated v _ l u f.used f.one))

  -- From page `v` on the rest of the bytes come to the buffer.
  pub loop_lem :
      (rounds v len : ℕ) (s : Store D)
      → Whole s
      → f_pos / page_size ≤ v
      → v + rounds ≡ last / page_size + 1
      → len + f_pos ≡ place page_size f_pos last v
      → (s' : Store D) × (read_loop fs rounds v inode page_size f_pos last buf len s
          ≡ some (s', last + 1 - f_pos))
        × ((j : ℕ)
            → s'.mem j
              ≡ (if leb (buf + len) j && ltb j goal then byte (f_pos + (j - buf)) else s.mem j))
  unfolding read_loop
  loop_lem zero v len s h l e at =
      let end =
        place_end page_size f_pos last v (pages_up page_size f_pos last some_size up)
          (omega arith) in
      let n : len ≡ last + 1 - f_pos = omega arith in
      (s, ap (λ x. some (s, x)) n, λ j. ground arith)
  loop_lem (suc rounds) v len s h l e at =
      let u : v ≤ last / page_size = omega arith in
      let f = look_up-Found fs inode page_size byte block _ _ buf goal s h v l u in
      let n = span (begin_off page_size f_pos v) (end_off page_size last v) in
      let bytes = bytes_lem s h v len l u at in
      let at' = step_at s h v len l u at in
      let below = place_bound page_size f_pos last (v + 1) some_size up in
      let fits : buf + len + n ≤ goal = omega arith in
      let t = after v len s in
      let outside : (j : ℕ) → (leb buf j && ltb j goal) ≡ false → t.mem j ≡ s.mem j =
        λ j o. bytes j ∙ rw (not_inside buf len n goal j fits o) refl in
      let h' : Whole t =
        Held-kept fs inode page_size byte block _ _ buf goal s h t f.still f.same_pages f.same_disk
          f.same_uses outside in
      let (s', done, mem) =
        loop_lem rounds (v + 1) (len + n) t h' (omega arith) (omega arith) at' in
      let small_len : (len + n) % word ≡ len + n = omega arith in
      let found = find-Found fs (block v) inode s f in
      let real : (block v == word - 1) ≡ false = ground (arith, h.real v l u) in
      let data_there = data_found s h v l u in
      (
        s',
        rw (h.mapped v l u, real, found, f.known, data_there, small_len) done,
        λ j.
            mem j
            ∙ ap
                (λ x. if leb (buf + (len + n)) j && ltb j goal then byte (f_pos + (j - buf)) else x)
                (bytes j)
            ∙ joined buf len n goal j (byte (f_pos + (j - buf))) (s.mem j) fits,
      )
