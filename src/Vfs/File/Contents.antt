-- ===== src/Vfs/File/Contents.antt =====
-- What a read of a file whose pages are in the cache delivers.
use ninix.Vfs.File.{FileSystem, Store, File, last_byte}
use ninix.Vfs.File.Input.{read_loop, generic_file_read}
use ninix.Vfs.File.Page.{place, pages_up}
use ninix.Vfs.File.Cached.{Held}
use ninix.Base.{
  ltb, leb, if◌then◌else◌, word, ℕ, ◌+◌, ◌-◌, ◌/◌, ◌%◌, ◌<◌, ◌≡◌, ap, ◌∙◌, ◌&&◌, some, arith,
}
use ninix.Vfs.File.Loop.{loop_lem}

-- The end of the function, behind the loop.
returned :
    {D : Type 0} (fs : FileSystem D) (inode mapping : ℕ) (file : File) (buf count : ℕ) (s : Store D)
    {last len n : ℕ} {s' : Store D}
    → file.d_inode ≡ some inode
    → file.f_mapping ≡ some mapping
    → last_byte file.f_pos count (s.inodes inode).i_size ≡ last
    → read_loop fs
        (last / (s.inodes inode).i_blksize + 1 - file.f_pos / (s.inodes inode).i_blksize)
        (file.f_pos / (s.inodes inode).i_blksize)
        inode
        (s.inodes inode).i_blksize
        file.f_pos
        last
        buf
        0
        s
      ≡ some (s', len)
    → len ≡ n
    → file.f_pos + n < word
    → generic_file_read fs file buf count s ≡ some (record file { f_pos = file.f_pos + n }, s', n)
unfolding generic_file_read
returned fs inode mapping file buf count s {len = len} {n = n} {s' = s'} i m e done end within =
    let no_wrap : (file.f_pos + n) % word ≡ file.f_pos + n = omega arith in
    rw (i, m, e, done, end, no_wrap)
      (ap
        (λ x.
          some (record file { f_pos = file.f_pos + n; d_inode = some inode; f_mapping = x }, s', n))
        m)

widened :
    (buf j x y : ℕ) {len n : ℕ}
    → len ≡ n
    → (if leb (buf + 0) j && ltb j (buf + len) then x else y)
      ≡ (if leb buf j && ltb j (buf + n) then x else y)
widened buf j x y e = ground arith

-- `generic_file_read` of at least one byte, from a position inside of a file whose pages up to the last
-- byte that is asked for are in the cache, with sizes and positions that are words and room in the buffer apart from these pages: it returns, with as many bytes as
-- the file has from there on and `count` at most, the buffer holds these bytes of the file, no other
-- byte of memory changes, and the position goes on behind them.
pub generic_file_read_lem :
    {D : Type 0} (fs : FileSystem D) (inode mapping : ℕ) (byte block : ℕ → ℕ) (file : File)
    (buf count : ℕ) (s : Store D)
    → file.d_inode ≡ some inode
    → file.f_mapping ≡ some mapping
    → 0 < (s.inodes inode).i_blksize
    → (s.inodes inode).i_blksize < word
    → (s.inodes inode).i_size < word
    → file.f_pos < (s.inodes inode).i_size
    → 0 < count
    → file.f_pos + count < word
    → let page_size = (s.inodes inode).i_blksize in
      let n =
        if ltb (s.inodes inode).i_size (file.f_pos + count)
        then (s.inodes inode).i_size - file.f_pos
        else count in
      Held fs inode page_size byte block
        (file.f_pos / page_size)
        ((file.f_pos + n - 1) / page_size)
        buf
        (buf + n)
        s
      → (s' : Store D) × (generic_file_read fs file buf count s
          ≡ some (record file { f_pos = file.f_pos + n }, s', n))
        × ((j : ℕ)
            → s'.mem j
              ≡ (if leb buf j && ltb j (buf + n) then byte (file.f_pos + (j - buf)) else s.mem j))
generic_file_read_lem fs inode mapping byte block file buf count s i m some_size small bounded
      inside more room held =
    let page_size = (s.inodes inode).i_blksize in
    let n =
      if ltb (s.inodes inode).i_size (file.f_pos + count)
      then (s.inodes inode).i_size - file.f_pos
      else count in
    let last = file.f_pos + n - 1 in
    let e : last_byte file.f_pos count (s.inodes inode).i_size ≡ last = ground arith in
    let some_bytes : 0 < n = ground arith in
    let within : file.f_pos + n < word = ground arith in
    let run =
      loop_lem fs inode page_size byte block file.f_pos last buf some_size small (omega arith)
        (omega arith) in
    let end : last + 1 - file.f_pos ≡ n = omega arith in
    let first = pages_up page_size file.f_pos last some_size (omega arith) in
    let start : 0 + file.f_pos ≡ place page_size file.f_pos last (file.f_pos / page_size) =
      ground arith in
    let (s', done, mem) =
      run (last / page_size + 1 - file.f_pos / page_size) (file.f_pos / page_size) 0 s (rw end held)
        (omega arith) (omega arith) start in
    (
      s',
      returned fs inode mapping file buf count s i m e done end within,
      λ j. mem j ∙ widened buf j _ _ end,
    )
