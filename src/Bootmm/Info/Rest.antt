-- ===== src/Bootmm/Info/Rest.antt =====
-- What an insertion into the table leaves alone.
use ninix.Bootmm.{Bootmm, minus_one}
use ninix.Bootmm.Info.{InsertionState, connect_forward, insert_loop, insert_mminfo}
use ninix.Bootmm.Info.Entries.{insert_loop_cases}
use ninix.Base.{leb, ◌==◌, Bool-cases, ℕ, zero, suc, ◌+◌, ◌-◌, ◌≡◌, refl, inl, inr}

-- The page map and its bounds.
abbrev pub SamePages : Bootmm → Bootmm × InsertionState → Type 0
SamePages mm r =
    (r.0.s_map ≡ mm.s_map) × (r.0.max_pfn ≡ mm.max_pfn) × (r.0.last_alloc_end ≡ mm.last_alloc_end)

connect_forward-SamePages :
    (mm : Bootmm) (i num end : ℕ) → SamePages mm (connect_forward mm i num end)
unfolding connect_forward
connect_forward-SamePages mm i num end = elim (Bool-cases (i == num - 1)) [
  | inl e ↦ rw e (refl, refl, refl)
  | inr e ↦ rw e (elim (Bool-cases (minus_one (mm.info (i + 1)).start == end)) [
    | inl f ↦ rw f (refl, refl, refl)
    | inr f ↦ rw f (elim (Bool-cases (leb (mm.info (i + 1)).start end)) [
      | inl g ↦ rw g (refl, refl, refl)
      | inr g ↦ rw g (refl, refl, refl)
    ])
  ])
]

insert_loop-SamePages :
    (n i num start end type : ℕ) (mm : Bootmm)
    → SamePages mm (insert_loop n i num start end type mm)
unfolding insert_loop
insert_loop-SamePages zero i num start end type mm = (refl, refl, refl)
insert_loop-SamePages (suc n) i num start end type mm =
    insert_loop_cases (SamePages mm) n i num start end type mm
      (insert_loop-SamePages n (i + 1) num start end type mm)
      (connect_forward-SamePages mm i num end) (refl, refl, refl) (refl, refl, refl)

pub insert_mminfo-SamePages :
    (mm : Bootmm) (start end type : ℕ) → SamePages mm (insert_mminfo mm start end type)
unfolding insert_mminfo
insert_mminfo-SamePages mm start end type = elim (Bool-cases (mm.cnt_infos == 10)) [
  | inl full ↦ rw full (refl, refl, refl)
  | inr room ↦ rw room (insert_loop-SamePages mm.cnt_infos 0 mm.cnt_infos start end type mm)
]
