-- ===== src/Bootmm/Info.antt =====
-- The table of memory areas: `insert_mminfo`, `split_mminfo` and `remove_mminfo`.
pub mod Entries
pub mod Rest
use ninix.Bootmm.{Bootmm, BootmmInfo, page_align, set_mminfo, minus_one, max_info}
use ninix.Base.{
  ltb, leb, ◌==◌, if◌then◌else◌, update, ℕ, zero, suc, ◌+◌, ◌-◌, ◌%◌, ◌^◌, not, ◌&&◌, ◌||◌,
}

pub data InsertionState : Type 0 where
  failed non_connection forward_connection backward_connection two_way_connection : InsertionState
  after_last_connection first_insertion : InsertionState

-- `for (j = cnt_infos - 2; j >= i + 1; j--)`, with the rounds left: entry `j` is written over itself.
unfoldable pub rewrite_entries : (rounds j : ℕ) → (ℕ → BootmmInfo) → ℕ → BootmmInfo
rewrite_entries zero j info = info
rewrite_entries (suc n) j info =
    rewrite_entries n (j - 1) (set_mminfo info j (info j).start (info j).end (info j).type)

-- The new part starts where entry `i` ends.
unfoldable pub connect_forward : Bootmm → (i num end : ℕ) → Bootmm × InsertionState
connect_forward mm i num end =
    let grow = λ (e : ℕ). update mm.info i (record (mm.info i) { end = e }) in
    if i == num - 1
    then (record mm { info = grow end }, after_last_connection)
    else if minus_one (mm.info (i + 1)).start == end
    then (
      record mm {
        info = grow (mm.info (i + 1)).end;
        cnt_infos = (mm.cnt_infos + 2 ^ 32 - 1) % 2 ^ 32;
      },
      two_way_connection,
    )
    else if leb (mm.info (i + 1)).start end
    then (mm, failed)
    else (record mm { info = grow end }, forward_connection)

-- The loop over the entries, with the rounds left, and the insertion behind it.
unfoldable pub insert_loop : (rounds i num start end type : ℕ) → Bootmm → Bootmm × InsertionState
unfolding rewrite_entries connect_forward
insert_loop zero i num start end type mm = (
  record mm {
    info = set_mminfo mm.info mm.cnt_infos start end type;
    cnt_infos = (mm.cnt_infos + 1) % 2 ^ 32;
  },
  first_insertion,
)
insert_loop (suc n) i num start end type mm =
    let rest = insert_loop n (i + 1) num start end type mm in
    if not ((mm.info i).type == type)
    then rest
    else if (mm.info i).end == minus_one start
    then connect_forward mm i num end
    else if ltb (mm.info i).end (minus_one start) && ltb end (minus_one (mm.info (i + 1)).start)
    then (
      record mm {
        info = set_mminfo (rewrite_entries (num - 1 - i) (num - 1) mm.info) i start end type;
        cnt_infos = (mm.cnt_infos + 1) % 2 ^ 32;
      },
      non_connection,
    )
    else if minus_one (mm.info i).start == end
    then (
      record mm { info = update mm.info i (record (mm.info i) { start = start }) },
      backward_connection,
    )
    else rest

unfoldable pub insert_mminfo : Bootmm → (start end type : ℕ) → Bootmm × InsertionState
unfolding insert_loop
insert_mminfo mm start end type =
    if mm.cnt_infos == max_info
    then (mm, failed)
    else insert_loop mm.cnt_infos 0 mm.cnt_infos start end type mm

-- `for (i = from; i > index + 1; i--) info[i] = info[i - 1];`.
unfoldable pub shift_up : (rounds i : ℕ) → (ℕ → BootmmInfo) → ℕ → BootmmInfo
shift_up zero i info = info
shift_up (suc n) i info = shift_up n (i - 1) (update info i (info (i - 1)))

-- `for (i = index; i < cnt_infos - 1; i++) info[i] = info[i + 1];`.
unfoldable pub shift_down : (rounds i : ℕ) → (ℕ → BootmmInfo) → ℕ → BootmmInfo
shift_down zero i info = info
shift_down (suc n) i info = shift_down n (i + 1) (update info i (info (i + 1)))

-- The answer is 1 for success.
unfoldable pub split_mminfo : Bootmm → (index split_start : ℕ) → Bootmm × ℕ
split_mminfo mm index split₀ =
    let split_start = page_align split₀ in
    let old = mm.info index in
    if mm.cnt_infos == max_info
    then (mm, 0)
    else if leb split_start old.start || leb old.end split_start
    then (mm, 0)
    else if leb mm.cnt_infos index
    then (mm, 0)
    else (let cut = update mm.info index (record old { end = minus_one split_start }) in
        let moved = shift_up (mm.cnt_infos - (index + 1)) mm.cnt_infos cut in
        (
          record mm {
            cnt_infos = mm.cnt_infos + 1;
            info = set_mminfo moved (index + 1) split_start old.end old.type;
          },
          1,
        ))

unfoldable pub remove_mminfo : Bootmm → ℕ → Bootmm
remove_mminfo mm index =
    if leb mm.cnt_infos index
    then mm
    else if index == mm.cnt_infos - 1
    then record mm { cnt_infos = mm.cnt_infos - 1 }
    else record mm {
      info = shift_down (mm.cnt_infos - 1 - index) index mm.info;
      cnt_infos = mm.cnt_infos - 1;
    }
