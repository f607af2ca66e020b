-- ===== src/Vfs/File/Page.antt =====
-- Where the parts of a file stand in its pages.
use native.Mathlib.Nat.{div-add-mod', mod-lt, le-div_iff_mul-le}
use ninix.Vfs.File.{begin_off, end_off}
use ninix.Base.{
  leb, ◌==◌, if◌then◌else◌, Bool-cases, ℕ, ◌+◌, ◌*◌, ◌/◌, ◌%◌, ◌≤◌, ◌<◌, ◌≡◌, ap, ◌∙◌, inl, inr,
  true, false, arith, ℕ_discrete,
}

-- Where the transfer stands when it comes to page `vpn`; behind its last page it is at its end.
abbrev pub place : (page_size f_pos last vpn : ℕ) → ℕ
place page_size f_pos last vpn =
    if vpn == f_pos / page_size
    then f_pos
    else if leb vpn (last / page_size)
    then vpn * page_size
    else last + 1

pub place_bound :
    (page_size f_pos last vpn : ℕ)
    → 0 < page_size
    → f_pos ≤ last
    → place page_size f_pos last vpn ≤ last + 1
place_bound page_size f_pos last vpn some_size up = elim (Bool-cases (leb vpn (last / page_size))) [
  | inr e ↦ rw e (ground arith)
  | inl e ↦
      let b : vpn * page_size ≤ last = (le-div_iff_mul-le some_size).0 (ground arith) in
      rw e (ground arith)
]

pub pages_up :
    (page_size f_pos last : ℕ) → 0 < page_size → f_pos ≤ last → f_pos / page_size ≤ last / page_size
pages_up page_size f_pos last some_size up =
    let d = div-add-mod' f_pos page_size in (le-div_iff_mul-le some_size).1 (omega (arith, d))

pub place_end :
    (page_size f_pos last vpn : ℕ)
    → f_pos / page_size ≤ last / page_size
    → vpn ≡ last / page_size + 1
    → place page_size f_pos last vpn ≡ last + 1
place_end page_size f_pos last vpn up e = ground arith

module _ (page_size f_pos last vpn : ℕ) (to : vpn ≤ last / page_size) where
  pub begin_off-place :
      vpn * page_size + begin_off page_size f_pos vpn ≡ place page_size f_pos last vpn
  begin_off-place =
      let d = div-add-mod' f_pos page_size in
      elim (ℕ_discrete vpn (f_pos / page_size)) [
        | yes e ↦
            let t : (vpn == f_pos / page_size) ≡ true = ground arith in
            rw t (ap (λ v. v * page_size + f_pos % page_size) e ∙ d)
        | no n ↦
            let t : (vpn == f_pos / page_size) ≡ false = ground arith in
            let l : leb vpn (last / page_size) ≡ true = ground arith in rw (t, l) (omega arith)
      ]

  pub end_off-place :
      0 < page_size
      → f_pos / page_size ≤ vpn
      → vpn * page_size + end_off page_size last vpn + 1 ≡ place page_size f_pos last (vpn + 1)
  end_off-place some_size from =
      let d = div-add-mod' last page_size in
      let t : (vpn + 1 == f_pos / page_size) ≡ false = ground arith in
      elim (ℕ_discrete vpn (last / page_size)) [
        | yes e ↦
            let u : (vpn == last / page_size) ≡ true = ground arith in
            let l : leb (vpn + 1) (last / page_size) ≡ false = ground arith in
            rw (t, u, l) (ap (λ v. v * page_size + last % page_size + 1) e ∙ ap (λ x. x + 1) d)
        | no n ↦
            let u : (vpn == last / page_size) ≡ false = ground arith in
            let l : leb (vpn + 1) (last / page_size) ≡ true = ground arith in
            rw (t, u, l) (grind arith)
      ]

  pub end_off-bound : 0 < page_size → end_off page_size last vpn < page_size
  end_off-bound some_size = ground (arith, mod-lt last some_size)

  -- The transfer in the page does not end before it begins.
  pub begin_off-end_off :
      0 < page_size
      → f_pos ≤ last
      → f_pos / page_size ≤ vpn
      → begin_off page_size f_pos vpn ≤ end_off page_size last vpn
  begin_off-end_off some_size up from =
      let c = mod-lt f_pos some_size in
      elim (ℕ_discrete vpn (f_pos / page_size)) [
        | no n ↦ let t : (vpn == f_pos / page_size) ≡ false = ground arith in rw t (omega arith)
        | yes e ↦
            let t : (vpn == f_pos / page_size) ≡ true = ground arith in
            elim (ℕ_discrete vpn (last / page_size)) [
              | no n ↦
                  let u : (vpn == last / page_size) ≡ false = ground arith in
                  rw (t, u) (omega arith)
              | yes g ↦
                  let a' : vpn * page_size + f_pos % page_size ≡ f_pos =
                    ap (λ v. v * page_size + f_pos % page_size) e ∙ div-add-mod' f_pos page_size in
                  let b' : vpn * page_size + last % page_size ≡ last =
                    ap (λ v. v * page_size + last % page_size) g ∙ div-add-mod' last page_size in
                  let u : (vpn == last / page_size) ≡ true = ground arith in rw (t, u) (omega arith)
            ]
      ]
