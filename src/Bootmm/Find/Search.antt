-- ===== src/Bootmm/Find/Search.antt =====
-- The search ends, finds only free pages, and overlooks none.
use ninix.Bootmm.{page_free, page_used}
use ninix.Bootmm.Find.{Probe, found, beyond, blocked, hang, probe, search}
use ninix.Base.{
  leb, ◌==◌, Bool-cases, ℕ, zero, suc, ◌+◌, ◌%◌, ◌^◌, ◌≤◌, ◌<◌, max, ◌≡◌, ap, ◌∙◌, ◌≢◌, ◌⊎◌, inl,
  inr, true, false, Option, none, some, arith, dec_lt,
}

-- `cnt` free pages from `q` on, all before `e`.
pub record FreeRun (m : ℕ → ℕ) (q cnt e : ℕ) : Type 0 where
  pub fits : q + cnt ≤ e
  pub free : (j : ℕ) → q ≤ j → j < q + cnt → m j ≡ page_free

-- Each of the first `e` bytes of the map is one of the two marks.
abbrev pub IsClean : (ℕ → ℕ) → ℕ → Type 0
IsClean m e = (j : ℕ) → j < e → (m j ≡ page_free) ⊎ (m j ≡ page_used)

abbrev Probed : (ℕ → ℕ) → (e cnt temp : ℕ) → Probe → Type 0
Probed m e cnt temp (found t) =
    (t ≡ temp + cnt) × FreeRun m temp cnt (temp + cnt) × (temp + cnt ≤ max e temp)
Probed m e cnt temp beyond = e < temp + cnt
Probed m e cnt temp (blocked t) = (temp ≤ t) × (t < temp + cnt) × (t < e) × (m t ≡ page_used)
Probed m e cnt temp hang = ⊥

probe_lem : (m : ℕ → ℕ) (e cnt temp : ℕ) → IsClean m e → Probed m e cnt temp (probe m e cnt temp)
unfolding probe
probe_lem m e zero temp c = (
  omega arith,
  record { fits = omega arith; free = λ j lo hi. absurd (omega arith) },
  omega arith,
)
probe_lem m e (suc cnt) temp c = elim (Bool-cases (leb e temp)) [
  | inl out ↦ rw out (ground arith)
  | inr inside ↦ rw inside (elim (c temp (ground arith)) [
    | inl free ↦
        let t : (m temp == page_used) ≡ false = ground arith in
        let t' : (m temp == page_free) ≡ true = ground arith in
        rw (t, t')
          (further free (ground arith) (probe m e cnt (temp + 1)) (probe_lem m e cnt (temp + 1) c))
    | inr used ↦ let t : (m temp == page_used) ≡ true = ground arith in rw t (ground arith)
  ])
]
  where
    further :
        m temp ≡ page_free
        → temp < e
        → (r : Probe) → Probed m e cnt (temp + 1) r
        → Probed m e (suc cnt) temp r
    further z lt (found t) (end, run, top) = (
      omega arith,
      record {
        fits = omega arith;
        free = λ j lo hi. elim (Bool-cases (temp == j)) [
          | inl q ↦ ground arith
          | inr q ↦ run.free j (ground arith) (omega arith)
        ];
      },
      omega arith,
    )
    further z lt beyond h = omega arith
    further z lt (blocked t) h = (omega arith, omega arith, h.2, h.3)
    further z lt hang h = h

-- No page from `i` on starts a run that would do.
abbrev pub NoRun : (ℕ → ℕ) → (cnt e i : ℕ) → Type 0
NoRun m cnt e i = (q : ℕ) → i ≤ q → ¬ (FreeRun m q cnt e)

abbrev pub Found : (ℕ → ℕ) → (cnt e align i : ℕ) → Option (Option ℕ) → Type 0
Found m cnt e align i none = ⊥
Found m cnt e align i (some none) = align ≡ 1 → NoRun m cnt e i
Found m cnt e align i (some (some p)) = (i ≤ p) × FreeRun m p cnt e

-- The search may go on behind pages at which no run starts.
skip :
    (m : ℕ → ℕ) (cnt e align i i' : ℕ) (r : Option (Option ℕ))
    → i ≤ i'
    → (align ≡ 1 → (q : ℕ) → i ≤ q → q < i' → ¬ (FreeRun m q cnt e))
    → Found m cnt e align i' r
    → Found m cnt e align i r
skip m cnt e align i i' none le none_before f = f
skip m cnt e align i i' (some none) le none_before f = λ one q lo run. elim (dec_lt q i') [
  | yes h ↦ none_before one q lo h run
  | no h ↦ f one q (omega arith) run
]
skip m cnt e align i i' (some (some p)) le none_before f = (omega arith, f.1)

-- A run holds no used page.
not_used :
    {m : ℕ → ℕ} {q cnt e : ℕ} (t : ℕ) → FreeRun m q cnt e → q ≤ t → t < q + cnt → m t ≢ page_used
not_used t run lo hi used = omega (arith, run.free t lo hi)

-- With a clean map the search ends. A page that it answers starts a run of free pages within the
-- range; and when it answers none at an alignment of one page, there is no such run.
pub search_lem :
    (fuel : ℕ) (m : ℕ → ℕ) (cnt e align i : ℕ)
    → IsClean m e
    → 0 < cnt
    → e + align ≤ 2 ^ 32
    → 0 < fuel
    → e < fuel + i
    → Found m cnt e align i (search fuel m cnt e align i)
unfolding search
search_lem zero m cnt e align i c pos small go lt = absurd (omega arith)
search_lem (suc fuel) m cnt e align i c pos small go lt = elim (Bool-cases (leb e i)) [
  | inl out ↦ rw out (λ one q lo run. absurd (ground (arith, run.fits)))
  | inr inside ↦ rw inside (elim (Bool-cases (m i == page_used)) [
    | inl used ↦ rw used (
        skip m cnt e align i (i + 1) _ (omega arith)
          (λ one q lo hi run. not_used i run (omega arith) (omega arith) (ground arith))
          (search_lem fuel m cnt e align (i + 1) c pos small (ground arith) (omega arith)))
    | inr free ↦ rw free (
        probed (λ j. search_lem fuel m cnt e align j c pos small) (ground arith) (ground arith)
          (probe m e cnt i) (probe_lem m e cnt i c))
  ])
]
  where
    probed :
        ((j : ℕ) → 0 < fuel → e < fuel + j → Found m cnt e align j (search fuel m cnt e align j))
        → i < e
        → m i ≢ page_used
        → (r : Probe) → Probed m e cnt i r
        → Found m cnt e align i (elim r [
          | found temp ↦ some (some i)
          | beyond ↦ some none
          | blocked temp ↦ search fuel m cnt e align ((temp + align) % 2 ^ 32)
          | hang ↦ none
        ])
    probed again inside here (found t) (_, run, top) =
        (omega arith, record { fits = omega arith; free = run.free })
    probed again inside here beyond h = λ one q lo run. omega (arith, run.fits)
    probed again inside here (blocked t) (lo, hi, lt', used) =
        let past : i ≢ t = λ q. here (ap m q ∙ used) in
        let e' : (t + align) % 2 ^ 32 ≡ t + align = omega arith in
        rw e' (
          skip m cnt e align i (t + align) _ (omega arith)
            (λ one q lo' hi' run. not_used t run (omega arith) (omega arith) used)
            (again (t + align) (omega arith) (omega arith)))
    probed again inside here hang h = absurd h
