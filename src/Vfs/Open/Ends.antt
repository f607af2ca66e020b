-- ===== src/Vfs/Open/Ends.antt =====
-- The look-up of a path comes to an end.
use ninix.Vfs.Tree.{
  Tree, InodeOps, Place, LastType, last_norm, last_dir, e_nopath, follow_mount, follow_dotdot,
  d_alloc, do_lookup,
}
use ninix.Vfs.Tree.Upward.{follow_dotdot-Above}
use ninix.Vfs.Dentry.{dcache_look_up}
use ninix.Vfs.Open.{
  NameData, is_dot, is_dotdot, is_refused, put_place, enter, lookup_parent, middle, last_component,
  do_path_lookup,
}
use ninix.Vfs.Open.Walk.{all_names, is_name, slashes, path_of, resolve, do_path_lookup-resolve}
use ninix.Base.{
  ◌==◌, if◌then◌else◌, Bool-cases, length, word, ℕ, ◌+◌, ◌%◌, ◌<◌, ◌≡◌, refl, ◌∙◌, ◌≢◌, inl, inr,
  Bool, true, false, not, ◌&&◌, ◌||◌, Option, some, List, [], ◌∷◌,
}

-- The mounts of a tree go up to the first one: each other stands deeper than what it is mounted on, and
-- none is deeper than there are mounts.
pub record Grounded {D : Type 0} (depth : ℕ → ℕ) (t : Tree D) : Type 0 where
  pub root : (t.mounts t.root_mount).mnt_root ≡ t.root_dentry
  pub lower : (m : ℕ) → m ≢ t.root_mount → depth (t.mounts m).mnt_parent < depth m
  pub shallow : (m : ℕ) → depth m < length t.mnt_hash + 2

-- Two trees with the same mounts.
pub record SameMounts {D : Type 0} (t t' : Tree D) : Type 0 where
  pub mounts : t'.mounts ≡ t.mounts
  pub mnt_hash : t'.mnt_hash ≡ t.mnt_hash
  pub root_mount : t'.root_mount ≡ t.root_mount
  pub root_dentry : t'.root_dentry ≡ t.root_dentry

branch :
    {A : Type 0} (b : Bool) {o o' : Option A}
    → (r : A) × (o ≡ some r)
    → (r : A) × (o' ≡ some r)
    → (r : A) × ((if b then o else o') ≡ some r)
branch true x y = x
branch false x y = y

unmoved : {D : Type 0} (t : Tree D) → SameMounts t t
unmoved t = record { mounts = refl; mnt_hash = refl; root_mount = refl; root_dentry = refl }

Grounded-SameMounts :
    {D : Type 0} (depth : ℕ → ℕ) (t t' : Tree D)
    → Grounded depth t
    → SameMounts t t'
    → Grounded depth t'
Grounded-SameMounts depth t t' g s = record {
  root = rw (s.mounts, s.root_mount, s.root_dentry) g.root;
  lower = λ m. rw (s.mounts, s.root_mount) (g.lower m);
  shallow = λ m. rw s.mnt_hash (g.shallow m);
}

module _ {D : Type 0} (ops : InodeOps D)
    (keeps : (inode new : ℕ) (type : LastType) (t : Tree D)
      → SameMounts t (ops.lookup inode new type t).1) where
  d_alloc-SameMounts :
      (name : List ℕ) (parent : ℕ) (t : Tree D) → SameMounts t (d_alloc ops name parent t).1
  unfolding d_alloc
  d_alloc-SameMounts name parent t =
      let d = ops.kmalloc 68 t.disk in
      let b = ops.kmalloc ((length name + 1) % word) d.1 in
      elim (Bool-cases (d.0 == 0)) [
        | inl e ↦
            rw e (record { mounts = refl; mnt_hash = refl; root_mount = refl; root_dentry = refl })
        | inr e ↦ elim (Bool-cases (b.0 == 0)) [
          | inl f ↦
              rw (e, f)
                (record { mounts = refl; mnt_hash = refl; root_mount = refl; root_dentry = refl })
          | inr f ↦
              rw (e, f)
                (record { mounts = refl; mnt_hash = refl; root_mount = refl; root_dentry = refl })
        ]
      ]

  do_lookup-SameMounts :
      (parent : ℕ) (name : List ℕ) (type : LastType) (t : Tree D)
      → SameMounts t (do_lookup ops parent name type t).1
  unfolding do_lookup
  do_lookup-SameMounts parent name type t =
      let new = d_alloc ops name parent t in
      let a = d_alloc-SameMounts name parent t in
      let k = keeps (t.d_inode parent) new.0 type new.1 in
      elim (Bool-cases (dcache_look_up name parent t.dcache == 0)) [
        | inr e ↦ rw e (unmoved t)
        | inl e ↦ elim (Bool-cases (new.0 == 0)) [
          | inl f ↦ rw (e, f) a
          | inr f ↦
              rw (e, f)
                (record {
                  mounts = k.mounts ∙ a.mounts;
                  mnt_hash = k.mnt_hash ∙ a.mnt_hash;
                  root_mount = k.root_mount ∙ a.root_mount;
                  root_dentry = k.root_dentry ∙ a.root_dentry;
                })
        ]
      ]

  enter-SameMounts :
      (name : List ℕ) (type : LastType) (b : Bool) (nd : NameData) (t : Tree D)
      → SameMounts t (enter ops name type b nd t).0
  unfolding enter
  enter-SameMounts name type b nd t =
      let r = do_lookup ops nd.place.1 name type t in
      let f = follow_mount (nd.place.0, r.0) r.1 in
      let inode = (r.1).d_inode (f.0).1 in
      let s = do_lookup-SameMounts nd.place.1 name type t in
      elim (Bool-cases (r.0 == 0)) [
        | inl e ↦ rw e s
        | inr e ↦ elim (Bool-cases (not (f.1 == 0))) [
          | inl g ↦ rw (e, g) s
          | inr g ↦ elim (Bool-cases (inode == 0 || b && not (ops.has_lookup inode))) [
            | inl h ↦ rw (e, g, h) s
            | inr h ↦ rw (e, g, h) s
          ]
        ]
      ]

  module _ (depth : ℕ → ℕ) where
    -- The way up is taken in every grounded tree.
    up_lem :
        (nd : NameData) (t : Tree D)
        → Grounded depth t
        → (place : Place) × (follow_dotdot (length t.mnt_hash + 2) nd.place t ≡ some place)
    up_lem nd t g =
        let (place, e, _) =
          follow_dotdot-Above t depth g.lower g.root (length t.mnt_hash + 2) nd.place.0 nd.place.1
            (g.shallow nd.place.0) in
        (place, e)

    middle-Ends :
        (name : List ℕ) (nd : NameData) (t : Tree D)
        → Grounded depth t
        → (r : Tree D × NameData × ℕ) × (middle ops name nd t ≡ some r) × SameMounts t r.0
    unfolding middle
    middle-Ends name nd t g = elim (Bool-cases (is_dot name)) [
      | inl e ↦ ((t, nd, 0), rw e refl, unmoved t)
      | inr e ↦ elim (Bool-cases (is_dotdot name)) [
        | inl f ↦
            let (place, u) = up_lem nd t g in
            ((t, put_place place nd, 0), rw (e, f, u) refl, unmoved t)
        | inr f ↦ (
          enter ops name last_dir true nd t,
          rw (e, f) refl,
          enter-SameMounts name last_dir true nd t,
        )
      ]
    ]

    last_component-Ends :
        (name : List ℕ) (nd : NameData) (t : Tree D)
        → Grounded depth t
        → (r : Tree D × NameData × ℕ) × (last_component ops name nd t ≡ some r)
    unfolding last_component
    last_component-Ends name nd t g =
        let (place, u) = up_lem nd t g in
        branch nd.create (lookup_parent ops name nd t, refl)
          (branch nd.directory
            (branch (is_dot name) ((t, nd, 0), refl)
              (branch (is_dotdot name) ((t, put_place place nd, 0), rw u refl)
                (enter ops name last_dir true nd t, refl)))
            (branch (is_refused name) ((t, nd, e_nopath), refl)
              (enter ops name last_norm false nd t, refl)))

    resolve-Ends :
        (ns : List (List ℕ × ℕ)) (last : List ℕ) (nd : NameData) (t : Tree D)
        → Grounded depth t
        → (r : Tree D × NameData × ℕ) × (resolve ops ns last nd t ≡ some r)
    unfolding resolve
    resolve-Ends [] last nd t g = last_component-Ends last nd t g
    resolve-Ends (n ∷ ns) last nd t g =
        let (x, e, s) = middle-Ends n.0 nd t g in
        let (r, h) = resolve-Ends ns last x.1 x.0 (Grounded-SameMounts depth t x.0 g s) in
        elim (Bool-cases (x.2 == 0)) [ inl z ↦ (r, rw (e, z) h) | inr z ↦ (x, rw (e, z) refl) ]

-- Where the look-up of the file system moves no mount, and the mounts of the tree go up to the first one,
-- none deeper than there are mounts: `do_path_lookup` of a path of names, `.` and `..` among them, with
-- any number of slashes in front and one or more between two names, returns, with what comes of taking
-- the names one after the other up to the first error.
pub do_path_lookup-resolved :
    {D : Type 0} (ops : InodeOps D) (depth : ℕ → ℕ) (k : ℕ) (ns : List (List ℕ × ℕ)) (last : List ℕ)
    (nd : NameData) (t : Tree D)
    → ((inode new : ℕ) (type : LastType) (t : Tree D)
        → SameMounts t (ops.lookup inode new type t).1)
    → Grounded depth t
    → all_names ns ≡ true
    → is_name last ≡ true
    → (r : Tree D × NameData × ℕ) × (do_path_lookup ops (slashes k (path_of ns last)) nd t ≡ some r)
      × (resolve ops ns last nd t ≡ some r)
do_path_lookup-resolved ops depth k ns last nd t keeps g h l =
    let (r, e) = resolve-Ends ops keeps depth ns last nd t g in
    (r, do_path_lookup-resolve ops k ns last nd t h l ∙ e, e)
