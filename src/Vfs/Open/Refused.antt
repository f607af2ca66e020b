-- ===== src/Vfs/Open/Refused.antt =====
-- The files that no path leads to.
use ninix.Vfs.Tree.{Tree, InodeOps, LastType, Place, follow_mount, follow_dotdot, do_lookup}
use ninix.Vfs.Open.{
  NameData, slash, is_dot, is_dotdot, enter, middle, last_component, do_path_lookup, put_place,
}
use ninix.Vfs.Open.Walk.{all_names, slashes, path_of, resolve, do_path_lookup-resolve}
use ninix.Base.{
  ◌==◌, if◌then◌else◌, Bool-cases, length, ℕ, ◌+◌, ◌≡◌, refl, sym, ap, ◌∙◌, ◌≢◌, inl, inr, Bool,
  true, false, not, ◌&&◌, ◌||◌, Option, none, some, List, [], ◌∷◌, arith, ◌>>=◌,
}

data Kept {D : Type 0} (nd : NameData) : Option (Tree D × NameData × ℕ) → Type 0 where
  lost : Kept nd none
  kept :
      (t : Tree D) (m : NameData) (e : ℕ)
      → m.directory ≡ nd.directory
      → m.create ≡ nd.create
      → Kept nd (some (t, m, e))

data Failed {D : Type 0} : Option (Tree D × NameData × ℕ) → Type 0 where
  endless : Failed none
  failed : (t : Tree D) (m : NameData) (e : ℕ) → e ≢ 0 → Failed (some (t, m, e))

module _ {D : Type 0} (ops : InodeOps D) where
  enter-Kept :
      (name : List ℕ) (type : LastType) (b : Bool) (nd : NameData) (t : Tree D)
      → Kept nd (some (enter ops name type b nd t))
  unfolding enter
  enter-Kept name type b nd t =
      let r = do_lookup ops nd.place.1 name type t in
      let f = follow_mount (nd.place.0, r.0) r.1 in
      let inode = (r.1).d_inode (f.0).1 in
      elim (Bool-cases (r.0 == 0)) [
        | inl e ↦ rw e (kept _ _ _ refl refl)
        | inr e ↦ elim (Bool-cases (not (f.1 == 0))) [
          | inl g ↦ rw (e, g) (kept _ _ _ refl refl)
          | inr g ↦ elim (Bool-cases (inode == 0 || b && not (ops.has_lookup inode))) [
            | inl h ↦ rw (e, g, h) (kept _ _ _ refl refl)
            | inr h ↦ rw (e, g, h) (kept _ _ _ refl refl)
          ]
        ]
      ]

  middle-Kept : (name : List ℕ) (nd : NameData) (t : Tree D) → Kept nd (middle ops name nd t)
  unfolding middle
  middle-Kept name nd t = elim (Bool-cases (is_dot name)) [
    | inl e ↦ rw e (kept _ _ _ refl refl)
    | inr e ↦ elim (Bool-cases (is_dotdot name)) [
      | inl g ↦ rw (e, g) (moved nd t (follow_dotdot (length t.mnt_hash + 2) nd.place t))
      | inr g ↦ rw (e, g) (enter-Kept name _ true nd t)
    ]
  ]
    where
      moved :
          (nd : NameData) (t : Tree D) (o : Option Place)
          → Kept nd ((o >>= (λ place. some (put_place place nd))) >>= (λ nd'. some (t, nd', 0)))
      moved nd t none = lost
      moved nd t (some place) = kept _ _ _ refl refl

  one_letter :
      (ns : List (List ℕ × ℕ)) (c : ℕ) (nd : NameData) (t : Tree D)
      → nd.directory ≡ false
      → nd.create ≡ false
      → Failed (resolve ops ns (c ∷ []) nd t)
  unfolding resolve last_component
  one_letter [] c nd t d r = rw (r, d) (failed _ _ _ (λ e. omega arith))
  one_letter (n ∷ ns) c nd t d r =
      behind ns c nd d r (λ m t x y. one_letter ns c m t x y) (middle-Kept n.0 nd t)
    where
      behind :
          (ns : List (List ℕ × ℕ)) (c : ℕ) (nd : NameData) {o : Option (Tree D × NameData × ℕ)}
          → nd.directory ≡ false
          → nd.create ≡ false
          → ((m : NameData) (t : Tree D)
              → m.directory ≡ false
              → m.create ≡ false
              → Failed (resolve ops ns (c ∷ []) m t))
          → Kept nd o
          → Failed (o >>= (λ x. if x.2 == 0 then resolve ops ns (c ∷ []) x.1 x.0 else some x))
      behind ns c nd d r again lost = endless
      behind ns c nd d r again (kept t m e x y) = elim (Bool-cases (e == 0)) [
        | inl z ↦ rw z (again m t (x ∙ d) (y ∙ r))
        | inr z ↦ rw z (failed _ _ _ (λ w. ground arith))
      ]

abbrev error_of : {D : Type 0} → Option (Tree D × NameData × ℕ) → ℕ
error_of none = 0
error_of (some x) = x.2

not_found :
    {D : Type 0} {o : Option (Tree D × NameData × ℕ)} {t : Tree D} {m : NameData} {e : ℕ}
    → Failed o
    → o ≡ some (t, m, e)
    → e ≢ 0
not_found endless h = absurd (ground arith)
not_found (failed t m e n) h = λ z. n (ap error_of h ∙ z)

-- `do_path_lookup` for a file, as without `O_DIR` and `O_CREATE`, never answers 0 for a path whose last
-- name has one letter, whether there is such a file or not.
pub do_path_lookup-one_letter :
    {D : Type 0} (ops : InodeOps D) (k : ℕ) (ns : List (List ℕ × ℕ)) (c : ℕ) (nd nd' : NameData)
    (t t' : Tree D) (err : ℕ)
    → all_names ns ≡ true
    → c ≢ slash
    → nd.directory ≡ false
    → nd.create ≡ false
    → do_path_lookup ops (slashes k (path_of ns (c ∷ []))) nd t ≡ some (t', nd', err)
    → err ≢ 0
do_path_lookup-one_letter ops k ns c nd nd' t t' err h s d r e =
    not_found (one_letter ops ns c nd t d r)
      (sym (do_path_lookup-resolve ops k ns (c ∷ []) nd t h (ground arith)) ∙ e)
