-- ===== src/Bootmm/Info/Entries.antt =====
-- What the operations on the table of areas do to its entries.
use ninix.Bootmm.{Bootmm, BootmmInfo, page_align, set_mminfo, minus_one}
use ninix.Bootmm.Info.{
  InsertionState, failed, non_connection, backward_connection, rewrite_entries, connect_forward,
  insert_loop, insert_mminfo, shift_up, shift_down, split_mminfo, remove_mminfo,
}
use ninix.Base.{
  ltb, leb, ◌==◌, if◌then◌else◌, Bool-cases, update, ℕ, zero, suc, ◌+◌, ◌-◌, ◌%◌, ◌^◌, ◌≤◌, ◌<◌,
  ◌≡◌, refl, ◌∙◌, ◌≢◌, ◌⊎◌, inl, inr, false, not, ◌&&◌, arith,
}

-- The loop that is meant to make room moves nothing.
rewrite_entries_lem :
    (n j : ℕ) (info : ℕ → BootmmInfo) (k : ℕ) → rewrite_entries n j info k ≡ info k
unfolding rewrite_entries
rewrite_entries_lem zero j info k = refl
rewrite_entries_lem (suc n) j info k = rewrite_entries_lem n (j - 1) _ k ∙ ground arith

-- The new area `a` has taken the place of entry `i`.
pub record Replaced (mm mm' : Bootmm) (i : ℕ) (a : BootmmInfo) : Type 0 where
  pub place : i < mm.cnt_infos
  pub entries : (k : ℕ) → mm'.info k ≡ (if i == k then a else mm.info k)
  pub counted : mm'.cnt_infos ≡ mm.cnt_infos + 1

first_ne :
    (i start end type : ℕ) (mm : Bootmm)
    → (insert_loop zero i mm.cnt_infos start end type mm).1 ≢ non_connection
unfolding insert_loop
first_ne i start end type mm h = cc

-- One round of the loop: on to the next entry, or one of three ways to stop.
pub insert_loop_cases :
    (P : Bootmm × InsertionState → Type 0) (n i num start end type : ℕ) (mm : Bootmm)
    → P (insert_loop n (i + 1) num start end type mm)
    → P (connect_forward mm i num end)
    → P (
      record mm {
        info = set_mminfo (rewrite_entries (num - 1 - i) (num - 1) mm.info) i start end type;
        cnt_infos = (mm.cnt_infos + 1) % 2 ^ 32;
      },
      non_connection,
    )
    → P (
      record mm { info = update mm.info i (record (mm.info i) { start = start }) },
      backward_connection,
    )
    → P (insert_loop (suc n) i num start end type mm)
unfolding insert_loop
insert_loop_cases P n i num start end type mm on forward apart back =
    elim (Bool-cases (not ((mm.info i).type == type))) [
      | inl e ↦ rw e on
      | inr e ↦ rw e (elim (Bool-cases ((mm.info i).end == minus_one start)) [
        | inl e' ↦ rw e' forward
        | inr e' ↦
            rw e'
              (elim (Bool-cases (
                ltb (mm.info i).end (minus_one start)
                && ltb end (minus_one (mm.info (i + 1)).start))) [
                  | inl e'' ↦ rw e'' apart
                  | inr e'' ↦ rw e'' (elim (Bool-cases (minus_one (mm.info i).start == end)) [
                    | inl f ↦ rw f back
                    | inr f ↦ rw f on
                  ])
                ])
      ])
    ]

connect_forward-ne :
    (mm : Bootmm) (i num end : ℕ) → (connect_forward mm i num end).1 ≢ non_connection
unfolding connect_forward
connect_forward-ne mm i num end = ground arith

insert_loop_replaces :
    (n i start end type : ℕ) (mm : Bootmm)
    → i + n ≡ mm.cnt_infos
    → mm.cnt_infos < 10
    → (insert_loop n i mm.cnt_infos start end type mm).1 ≡ non_connection
    → (k : ℕ) × Replaced mm
        (insert_loop n i mm.cnt_infos start end type mm).0
        k
        (record { start = start; end = end; type = type })
insert_loop_replaces zero i start end type mm e lt = λ h. absurd (first_ne i start end type mm h)
insert_loop_replaces (suc n) i start end type mm e lt =
    insert_loop_cases
      (λ r.
        r.1 ≡ non_connection
        → (k : ℕ) × Replaced mm r.0 k (record { start = start; end = end; type = type }))
      n i mm.cnt_infos start end type mm
      (insert_loop_replaces n (i + 1) start end type mm (omega arith) lt)
      (λ h. absurd (connect_forward-ne mm i mm.cnt_infos end h))
      (λ h. (
        i,
        record {
          place = omega arith;
          entries = λ k.
              ground
                (arith, rewrite_entries_lem (mm.cnt_infos - 1 - i) (mm.cnt_infos - 1) mm.info k);
          counted = omega arith;
        },
      ))
      (λ h. cc)

-- When `insert_mminfo` finds the new area apart from its neighbours, an entry that was there is
-- lost: the new area stands in its place, and the count has grown by one all the same.
pub insert_mminfo_loses :
    (mm : Bootmm) (start end type : ℕ)
    → mm.cnt_infos < 10
    → (insert_mminfo mm start end type).1 ≡ non_connection
    → (k : ℕ) × Replaced mm
        (insert_mminfo mm start end type).0
        k
        (record { start = start; end = end; type = type })
unfolding insert_mminfo
insert_mminfo_loses mm start end type lt =
    let room : (mm.cnt_infos == 10) ≡ false = ground arith in
    rw room (insert_loop_replaces mm.cnt_infos 0 start end type mm (omega arith) lt)

-- The count stays within the room there is, and a failure leaves the table as it was.
unfoldable pub Bounded : Bootmm → Bootmm × InsertionState → Type 0
Bounded mm r = (r.0.cnt_infos ≤ 10) × ((r.1 ≢ failed) ⊎ (r.0 ≡ mm))

connect_forward-Bounded :
    (mm : Bootmm) (i end : ℕ)
    → 0 < mm.cnt_infos
    → mm.cnt_infos < 10
    → Bounded mm (connect_forward mm i mm.cnt_infos end)
unfolding connect_forward Bounded
connect_forward-Bounded mm i end pos lt = elim (Bool-cases (i == mm.cnt_infos - 1)) [
  | inl e ↦ rw e (omega arith, inl (λ h. cc))
  | inr e ↦ rw e (elim (Bool-cases (minus_one (mm.info (i + 1)).start == end)) [
    | inl f ↦ rw f (omega arith, inl (λ h. cc))
    | inr f ↦ rw f (elim (Bool-cases (leb (mm.info (i + 1)).start end)) [
      | inl g ↦ rw g (omega arith, inr refl)
      | inr g ↦ rw g (omega arith, inl (λ h. cc))
    ])
  ])
]

insert_loop-Bounded :
    (n i start end type : ℕ) (mm : Bootmm)
    → i + n ≡ mm.cnt_infos
    → mm.cnt_infos < 10
    → Bounded mm (insert_loop n i mm.cnt_infos start end type mm)
unfolding insert_loop Bounded
insert_loop-Bounded zero i start end type mm e lt = (omega arith, inl (λ h. cc))
insert_loop-Bounded (suc n) i start end type mm e lt =
    insert_loop_cases (Bounded mm) n i mm.cnt_infos start end type mm
      (insert_loop-Bounded n (i + 1) start end type mm (omega arith) lt)
      (connect_forward-Bounded mm i end (omega arith) lt) (omega arith, inl (λ h. cc))
      (omega arith, inl (λ h. cc))

-- From a table of at most ten entries, `insert_mminfo` leads to a table of at most ten entries, and
-- when it answers `failed` the table is the one it was given.
pub insert_mminfo-Bounded :
    (mm : Bootmm) (start end type : ℕ)
    → mm.cnt_infos ≤ 10
    → Bounded mm (insert_mminfo mm start end type)
unfolding insert_mminfo Bounded
insert_mminfo-Bounded mm start end type le = elim (Bool-cases (mm.cnt_infos == 10)) [
  | inl full ↦ rw full (le, inr refl)
  | inr room ↦
      rw room (insert_loop-Bounded mm.cnt_infos 0 start end type mm (omega arith) (ground arith))
]

-- `shift_up` moves the entries below `i` up by one place, as far as its rounds go.
shift_up_lem :
    (n i : ℕ) (info : ℕ → BootmmInfo) (k : ℕ)
    → n ≤ i
    → shift_up n i info k ≡ (if ltb (i - n) k && leb k i then info (k - 1) else info k)
unfolding shift_up
shift_up_lem zero i info k h = ground arith
shift_up_lem (suc n) i info k h =
    ground (arith, shift_up_lem n (i - 1) (update info i (info (i - 1))) k)

shift_down_lem :
    (n i : ℕ) (info : ℕ → BootmmInfo) (k : ℕ)
    → shift_down n i info k ≡ (if leb i k && ltb k (i + n) then info (k + 1) else info k)
unfolding shift_down
shift_down_lem zero i info k = ground arith
shift_down_lem (suc n) i info k =
    ground (arith, shift_down_lem n (i + 1) (update info i (info (i + 1))) k)

-- `split_mminfo` answers 1 exactly when there is room, the cut lies strictly inside the area and
-- the index is in use. Then the area becomes two, the entries behind it move up by one place, and
-- the others stay.
pub split_mminfo_lem :
    (mm : Bootmm) (index at k : ℕ)
    → mm.cnt_infos < 10
    → index < mm.cnt_infos
    → (mm.info index).start < page_align at
    → page_align at < (mm.info index).end
    → k ≤ mm.cnt_infos
    → let mm' = (split_mminfo mm index at).0 in
      ((split_mminfo mm index at).1 ≡ 1)
      × (mm'.cnt_infos ≡ mm.cnt_infos + 1)
      × (mm'.info k ≡ (
          if ltb k index
          then mm.info k
          else if k == index
          then record (mm.info index) { end = minus_one (page_align at) }
          else if k == index + 1
          then record (mm.info index) { start = page_align at }
          else mm.info (k - 1)))
unfolding split_mminfo
split_mminfo_lem mm index at k room used lo hi small =
    let cut = update mm.info index (record (mm.info index) { end = minus_one (page_align at) }) in
    ground (arith, shift_up_lem (mm.cnt_infos - (index + 1)) mm.cnt_infos cut k)

-- `remove_mminfo` of an entry in use: those behind it move down, the others stay.
pub remove_mminfo_lem :
    (mm : Bootmm) (index k : ℕ)
    → index < mm.cnt_infos
    → k + 1 < mm.cnt_infos
    → ((remove_mminfo mm index).cnt_infos + 1 ≡ mm.cnt_infos)
      × ((remove_mminfo mm index).info k ≡ (if ltb k index then mm.info k else mm.info (k + 1)))
unfolding remove_mminfo
remove_mminfo_lem mm index k used small =
    ground (arith, shift_down_lem (mm.cnt_infos - 1 - index) index mm.info k)
