-- ===== src/Vfs/Dentry/Look.antt =====
-- What is found in the cache of directory entries.
use ninix.Vfs.Dentry.{
  Dentry, Dentries, search_dentries, generic_check_filename, dcache_look_up, dcache_add,
  string_hash,
}
use ninix.Vfs.Dentry.Names.{check_filename-upper}
use ninix.Base.{
  ◌==◌, Bool-cases, update, ℕ, ◌≡◌, refl, ap, inl, inr, true, false, ◌&&◌, List, ◌∷◌, arith,
}

found_first :
    (dentries : ℕ → Dentry) (d : ℕ) (ds : List ℕ)
    → search_dentries dentries (dentries d).d_name (dentries d).d_parent (d ∷ ds) ≡ d
unfolding search_dentries
found_first dentries d ds =
    let same : (generic_check_filename (dentries d).d_name (dentries d).d_name == 0) ≡ true =
      rw ((check_filename-upper (dentries d).d_name (dentries d).d_name).1 refl) refl in
    let self : ((dentries d).d_parent == (dentries d).d_parent) ≡ true = ground arith in
    rw (same, self) refl

-- Bucket `k` has got the entry, and bucket `j` is searched.
passed_over :
    (s : Dentries) (d : ℕ) (name : List ℕ) (parent k j : ℕ)
    → (generic_check_filename (s.dentries d).d_name name == 0 && (s.dentries d).d_parent == parent)
      ≡ false
    → search_dentries s.dentries name parent
        (update s.cache.c_hashtable k (d ∷ s.cache.c_hashtable k) j)
      ≡ search_dentries s.dentries name parent (s.cache.c_hashtable j)
unfolding search_dentries
passed_over s d name parent k j h = elim (Bool-cases (k == j)) [
  | inl e ↦
      let same : k ≡ j = ground arith in
      rw (e, h) (ap (λ i. search_dentries s.dentries name parent (s.cache.c_hashtable i)) same)
  | inr e ↦ rw e refl
]

-- Behind `dcache_add` a look-up of the entry's own name under its parent finds this entry, whatever was
-- in the cache; a name that is not the same, or another parent, is looked up as before.
pub dcache_look_up-add :
    (d : ℕ) (name : List ℕ) (parent : ℕ) (s : Dentries)
    → (dcache_look_up (s.dentries d).d_name (s.dentries d).d_parent (dcache_add d s) ≡ d)
      × ((generic_check_filename (s.dentries d).d_name name == 0
              && (s.dentries d).d_parent == parent)
            ≡ false
          → dcache_look_up name parent (dcache_add d s) ≡ dcache_look_up name parent s)
unfolding dcache_look_up dcache_add
dcache_look_up-add d name parent s = (
  (let k = string_hash (s.dentries d).d_name s.cache.c_tablesize in
      let self : (k == k) ≡ true = ground arith in
      rw self (found_first s.dentries d (s.cache.c_hashtable k))),
  passed_over s d name parent _ _,
)
