-- ===== src/Vfs/File/Cached.antt =====
-- A part of a file whose pages are all in the cache.
use ninix.Ring.Nodes.{count, count-used}
use ninix.Vfs.Cache.{Pages, is_page, pcache_look_up}
use ninix.Vfs.Cache.Coherent.{Coherent}
use ninix.Vfs.Cache.Find.{hit, miss, pcache_look_up-LookedUp}
use ninix.Vfs.File.{FileSystem, Store}
use ninix.Base.{
  ltb, leb, ◌==◌, word, ℕ, ◌+◌, ◌-◌, ◌*◌, ◌≤◌, ◌<◌, ◌≡◌, sym, ap, ◌∙◌, ◌≢◌, true, false, ◌&&◌, ◌||◌,
  arith,
}

-- The pages `lo` to `hi` of the file `inode` are in the cache, which is coherent: page `v` stands in
-- block `block v`, which `bmap` finds without a change, and the bytes of the file are `byte`. The memory
-- from `buf` up to `end` has no part of these pages.
pub record Held {D : Type 0} (fs : FileSystem D) (inode page_size : ℕ) (byte block : ℕ → ℕ)
    (lo hi buf end : ℕ) (s : Store D) : Type 0 where
  pub coherent : Coherent s.pages
  pub mapped : (v : ℕ) → lo ≤ v → v ≤ hi → fs.bmap inode v s.pages.disk ≡ (block v, s.pages.disk)
  pub real : (v : ℕ) → lo ≤ v → v ≤ hi → block v ≢ word - 1
  pub cached :
      (v : ℕ)
      → lo ≤ v
      → v ≤ hi
      → (q : ℕ) × (count q s.pages.cache.c_lru ≡ 1)
        × (is_page (block v) inode (s.pages.pages q) ≡ true)
  pub allocated :
      (v q : ℕ)
      → lo ≤ v
      → v ≤ hi
      → count q s.pages.cache.c_lru ≡ 1
      → is_page (block v) inode (s.pages.pages q) ≡ true
      → 0 < (s.pages.pages q).p_data
  pub apart :
      (v q : ℕ)
      → lo ≤ v
      → v ≤ hi
      → count q s.pages.cache.c_lru ≡ 1
      → is_page (block v) inode (s.pages.pages q) ≡ true
      → (leb ((s.pages.pages q).p_data + page_size) buf || leb end (s.pages.pages q).p_data) ≡ true
  pub content :
      (v q k : ℕ)
      → lo ≤ v
      → v ≤ hi
      → count q s.pages.cache.c_lru ≡ 1
      → is_page (block v) inode (s.pages.pages q) ≡ true
      → k < page_size
      → s.mem ((s.pages.pages q).p_data + k) ≡ byte (v * page_size + k)

pub record Found {D : Type 0} (ppn inode : ℕ) (s : Store D) (r : Pages D × ℕ) : Type 0 where
  pub known : (r.1 == 0) ≡ false
  pub used : count r.1 s.pages.cache.c_lru ≡ 1
  pub one : is_page ppn inode (s.pages.pages r.1) ≡ true
  pub still : Coherent r.0
  pub same_pages : r.0.pages ≡ s.pages.pages
  pub same_disk : r.0.disk ≡ s.pages.disk
  pub same_uses : (q : ℕ) → count q r.0.cache.c_lru ≡ count q s.pages.cache.c_lru

module _ {D : Type 0} (fs : FileSystem D) (inode page_size : ℕ) (byte block : ℕ → ℕ)
    (lo hi buf end : ℕ) (s : Store D) (h : Held fs inode page_size byte block lo hi buf end s) where
  -- The look-up of a page of the file finds it.
  pub look_up-Found :
      (v : ℕ) → lo ≤ v → v ≤ hi → Found (block v) inode s (pcache_look_up (block v) inode s.pages)
  look_up-Found v l u =
      let (still, answer) = pcache_look_up-LookedUp s.pages h.coherent (block v) inode in
      elim answer [
        | hit nz one e new ↦ record {
          known = ground arith;
          used = one;
          one = e;
          still = still;
          same_pages = ap (λ (p : Pages D). p.pages) new;
          same_disk = ap (λ (p : Pages D). p.disk) new;
          same_uses = λ q.
              ap (λ (p : Pages D). count q p.cache.c_lru) new
              ∙ count-used _ q s.pages.cache.c_lru one;
        }
        | miss z none_there ↦
            let (q, c, e) = h.cached v l u in let f = none_there q c in absurd (ground arith)
      ]

  -- What keeps the pages, the bytes outside of the buffer and the files keeps all that.
  pub Held-kept :
      (t : Store D)
      → Coherent t.pages
      → t.pages.pages ≡ s.pages.pages
      → t.pages.disk ≡ s.pages.disk
      → ((q : ℕ) → count q t.pages.cache.c_lru ≡ count q s.pages.cache.c_lru)
      → ((j : ℕ) → (leb buf j && ltb j end) ≡ false → t.mem j ≡ s.mem j)
      → Held fs inode page_size byte block lo hi buf end t
  Held-kept t still pages disk uses mem = record {
    coherent = still;
    mapped = λ v l u. rw disk (h.mapped v l u);
    real = h.real;
    cached = λ v l u. let (q, c, e) = h.cached v l u in (q, uses q ∙ c, rw pages e);
    allocated = λ v q l u c. rw pages (h.allocated v q l u (sym (uses q) ∙ c));
    apart = λ v q l u c. rw pages (h.apart v q l u (sym (uses q) ∙ c));
    content = λ v q k l u c. rw pages (λ e b.
        let c' = sym (uses q) ∙ c in
        mem _ (ground (arith, h.apart v q l u c' e)) ∙ h.content v q k l u c' e b);
  }
