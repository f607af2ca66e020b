-- ===== src/Vfs/Open/Walk.antt =====
-- The walk along a path, name by name.
use ninix.Vfs.Tree.{Tree, InodeOps, e_nopath}
use ninix.Vfs.Open.{
  NameData, slash, skip_slashes, take_name, middle, last_component, walk, do_path_lookup,
}
use ninix.Base.{
  ◌==◌, if◌then◌else◌, length, length-append, ℕ, zero, suc, ◌+◌, ◌<◌, ◌≡◌, refl, ap, fun_ext, ◌∙◌,
  Bool, true, false, not, ◌&&◌, Option, some, List, [], ◌∷◌, ◌++◌, arith, ◌>>=◌,
}

-- A name is not empty and has no slash.
abbrev no_slash : List ℕ → Bool
no_slash [] = true
no_slash (c ∷ n) = not (c == slash) && no_slash n

abbrev pub is_name : List ℕ → Bool
is_name [] = false
is_name (c ∷ n) = not (c == slash) && no_slash n

-- Names with the number of slashes that are too many behind each.
abbrev pub all_names : List (List ℕ × ℕ) → Bool
all_names [] = true
all_names (n ∷ ns) = is_name n.0 && all_names ns

abbrev pub slashes : ℕ → List ℕ → List ℕ
slashes zero p = p
slashes (suc k) p = slash ∷ slashes k p

-- The path of these names and a last one.
abbrev pub path_of : List (List ℕ × ℕ) → (last : List ℕ) → List ℕ
path_of [] last = last
path_of (n ∷ ns) last = n.0 ++ slash ∷ slashes n.1 (path_of ns last)

-- The names one after the other, up to the first error.
unfoldable pub resolve :
    {D : Type 0}
    → InodeOps D
    → List (List ℕ × ℕ)
    → (last : List ℕ) → NameData
    → Tree D
    → Option (Tree D × NameData × ℕ)
resolve ops [] last nd t = last_component ops last nd t
resolve ops (n ∷ ns) last nd t = do
  (t', nd', err) ← middle ops n.0 nd t
  let rest = resolve ops ns last nd' t'
  if err == 0 then rest else some (t', nd', err)

take_name_lem : (n p : List ℕ) → no_slash n ≡ true → take_name (n ++ slash ∷ p) ≡ (n, slash ∷ p)
unfolding take_name
take_name_lem [] p h = refl
take_name_lem (c ∷ n) p h =
    let e : (c == slash) ≡ false = ground arith in rw (e, take_name_lem n p (ground arith)) refl

take_name_end : (n : List ℕ) → no_slash n ≡ true → take_name n ≡ (n, [])
unfolding take_name
take_name_end [] h = refl
take_name_end (c ∷ n) h =
    let e : (c == slash) ≡ false = ground arith in rw (e, take_name_end n (ground arith)) refl

-- A path that begins with a name.
record Begins (p : List ℕ) : Type 0 where
  head : ℕ
  tail : List ℕ
  whole : p ≡ head ∷ tail
  named : (head == slash) ≡ false

skip-slashes : (k : ℕ) (p : List ℕ) → Begins p → skip_slashes (slashes k p) ≡ p
unfolding skip_slashes
skip-slashes zero p b = rw (b.whole, b.named) refl
skip-slashes (suc k) p b = skip-slashes k p b

path_of-Begins :
    (ns : List (List ℕ × ℕ)) (last : List ℕ)
    → all_names ns ≡ true
    → is_name last ≡ true
    → Begins (path_of ns last)
path_of-Begins [] [] h l = absurd (ground arith)
path_of-Begins [] (c ∷ p) h l = record { head = c; tail = p; whole = refl; named = ground arith }
path_of-Begins (([], k) ∷ ns) last h l = absurd (ground arith)
path_of-Begins ((c ∷ n, k) ∷ ns) last h l = record {
  head = c;
  tail = n ++ slash ∷ slashes k (path_of ns last);
  whole = refl;
  named = ground arith;
}

name-no_slash : (n : List ℕ) → is_name n ≡ true → no_slash n ≡ true
name-no_slash [] h = refl
name-no_slash (c ∷ n) h = h

module _ {D : Type 0} (ops : InodeOps D) where
  walk_on :
      (rounds : ℕ) (n : List ℕ) (k : ℕ) (p : List ℕ) (nd : NameData) (t : Tree D)
      → no_slash n ≡ true
      → Begins p
      → walk ops (suc rounds) (n ++ slash ∷ slashes k p) nd t ≡ (do
        (t', nd', err) ← middle ops n nd t
        let rest = walk ops rounds p nd' t'
        if err == 0 then rest else some (t', nd', err))
  unfolding walk
  walk_on rounds n k p nd t h b =
      rw (walk, take_name_lem n (slashes k p) h, skip-slashes (suc k) p b, b.whole)
        (ap
          (λ x.
            middle ops x nd t
            >>= (λ y. if y.2 == 0 then walk ops rounds (b.head ∷ b.tail) y.1 y.0 else some y))
          (ap (λ r. r.0) (take_name_lem n (slashes k p) h)))

  walk_lem :
      (rounds : ℕ) (ns : List (List ℕ × ℕ)) (last : List ℕ) (nd : NameData) (t : Tree D)
      → all_names ns ≡ true
      → is_name last ≡ true
      → length ns < rounds
      → walk ops rounds (path_of ns last) nd t ≡ resolve ops ns last nd t
  unfolding walk resolve
  walk_lem zero ns last nd t h l e = absurd (omega arith)
  walk_lem (suc rounds) [] last nd t h l e =
      let e = take_name_end last (name-no_slash last l) in
      rw (walk, e) (ap (λ x. last_component ops x nd t) (ap (λ r. r.0) e))
  walk_lem (suc rounds) (n ∷ ns) last nd t h l e =
      walk_on rounds n.0 n.1 (path_of ns last) nd t (name-no_slash n.0 (ground arith))
        (path_of-Begins ns last (ground arith) l)
      ∙ ap (λ f. middle ops n.0 nd t >>= f)
          (fun_ext (λ x.
            ap (λ r. if x.2 == 0 then r else some x)
              (walk_lem rounds ns last x.1 x.0 (ground arith) l (omega arith))))

length-slashes : (k : ℕ) (p : List ℕ) → length (slashes k p) ≡ k + length p
length-slashes zero p = omega arith
length-slashes (suc k) p = omega (arith, length-slashes k p)

length-path_of :
    (ns : List (List ℕ × ℕ)) (last : List ℕ)
    → is_name last ≡ true
    → length ns < length (path_of ns last)
length-path_of [] [] h = absurd (ground arith)
length-path_of [] (c ∷ p) h = omega arith
length-path_of (n ∷ ns) last h = omega (
  arith,
  length-path_of ns last h,
  length-slashes n.1 (path_of ns last),
  length-append n.0 (slash ∷ slashes n.1 (path_of ns last)),
)

-- `do_path_lookup` of a path of names, with any number of slashes in front and one or more between two
-- names, goes through the names in order as `resolve` does, up to the first error.
pub do_path_lookup-resolve :
    {D : Type 0} (ops : InodeOps D) (k : ℕ) (ns : List (List ℕ × ℕ)) (last : List ℕ) (nd : NameData)
    (t : Tree D)
    → all_names ns ≡ true
    → is_name last ≡ true
    → do_path_lookup ops (slashes k (path_of ns last)) nd t ≡ resolve ops ns last nd t
unfolding do_path_lookup
do_path_lookup-resolve ops k ns last nd t h l =
    let b = path_of-Begins ns last h l in
    let rounds = length (slashes k (path_of ns last)) in
    let enough : length ns < rounds =
      omega (arith, length-slashes k (path_of ns last), length-path_of ns last l) in
    looked_up rounds (slashes k (path_of ns last)) (skip-slashes k (path_of ns last) b) b.whole
    ∙ walk_lem ops rounds ns last nd t h l enough
  where
    looked_up :
        (rounds : ℕ) (q : List ℕ) {p tail : List ℕ} {head : ℕ}
        → skip_slashes q ≡ p
        → p ≡ head ∷ tail
        → (elim (skip_slashes q) [
          | [] ↦ some (t, nd, if nd.directory then 0 else e_nopath)
          | c ∷ r ↦ walk ops rounds (c ∷ r) nd t
        ])
          ≡ walk ops rounds p nd t
    looked_up rounds q e f = rw (e, f) refl
