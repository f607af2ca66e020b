-- ===== src/Vfs/Tree/Upward.antt =====
-- Where `..` leads.
use ninix.Vfs.Tree.{Tree, Place, follow_dotdot}
use ninix.Base.{
  ◌==◌, Bool-cases, ℕ, zero, suc, ◌<◌, ◌≡◌, refl, ap, ◌∙◌, ◌≢◌, inl, inr, true, false, not, ◌&&◌,
  some, arith, ℕ_discrete,
}

-- The place above a place: the top stays, inside of a file system it is the parent, and from the root of
-- a mounted file system it is what is above the place where this is mounted.
pub data Above {D : Type 0} (t : Tree D) : Place → Place → Type 0 where
  top : {m d : ℕ} → d ≡ t.root_dentry → m ≡ t.root_mount → Above t (m, d) (m, d)
  inside :
      {m d : ℕ} → d ≢ (t.mounts m).mnt_root → Above t (m, d) (m, (t.dcache.dentries d).d_parent)
  over :
      {m d : ℕ} {place : Place}
      → m ≢ t.root_mount
      → d ≡ (t.mounts m).mnt_root
      → Above t ((t.mounts m).mnt_parent, (t.mounts m).mnt_mountpoint) place
      → Above t (m, d) place

-- In a tree whose mounts, but for the first, stand at a lower depth than what is mounted on them, and
-- whose root is that of the first mount, `follow_dotdot` with more rounds than the depth of the mount
-- returns the place above.
pub follow_dotdot-Above :
    {D : Type 0} (t : Tree D) (depth : ℕ → ℕ)
    → ((m : ℕ) → m ≢ t.root_mount → depth (t.mounts m).mnt_parent < depth m)
    → (t.mounts t.root_mount).mnt_root ≡ t.root_dentry
    → (rounds mnt dentry : ℕ) → depth mnt < rounds
    → (place : Place) × (follow_dotdot rounds (mnt, dentry) t ≡ some place)
      × Above t (mnt, dentry) place
unfolding follow_dotdot
follow_dotdot-Above t depth lower root zero mnt dentry h = absurd (omega arith)
follow_dotdot-Above t depth lower root (suc rounds) mnt dentry h =
    elim (Bool-cases (dentry == t.root_dentry && mnt == t.root_mount)) [
      | inl e ↦ ((mnt, dentry), rw e refl, top (ground arith) (ground arith))
      | inr e ↦ elim (ℕ_discrete dentry (t.mounts mnt).mnt_root) [
        | no n ↦
            let f : not (dentry == (t.mounts mnt).mnt_root) ≡ true = ground arith in
            ((mnt, (t.dcache.dentries dentry).d_parent), rw (e, f) refl, inside n)
        | yes y ↦
            let f : not (dentry == (t.mounts mnt).mnt_root) ≡ false = ground arith in
            let other : mnt ≢ t.root_mount = λ z. at_root t mnt dentry root y z e in
            let (place, done, above) =
              follow_dotdot-Above t depth lower root rounds (t.mounts mnt).mnt_parent
                (t.mounts mnt).mnt_mountpoint (omega (arith, lower mnt other)) in
            (place, rw (e, f) done, over other y above)
      ]
    ]
  where
    at_root :
        {D : Type 0} (t : Tree D) (mnt dentry : ℕ)
        → (t.mounts t.root_mount).mnt_root ≡ t.root_dentry
        → dentry ≡ (t.mounts mnt).mnt_root
        → mnt ≡ t.root_mount
        → (dentry == t.root_dentry && mnt == t.root_mount) ≡ false
        → ⊥
    at_root t mnt dentry root y z e =
        let d : dentry ≡ t.root_dentry = y ∙ ap (λ m. (t.mounts m).mnt_root) z ∙ root in
        ground arith
