-- ===== src/Slab/Freeing.antt =====
-- `slab_free` on the current page of a cache, and what follows on a page that was full.
use ninix.Ring.Nodes.{count}
use ninix.Slab.{Slab, kmem_addr, kernel_entry, put_cache}
use ninix.Slab.Alloc.{slab_alloc}
use ninix.Slab.Free.{push_object, settle, slab_free, is_listed, unlist}
use ninix.Slab.Objects.{Chain, Page, Live, slab_alloc-freed, slab_alloc-next}
use ninix.Base.{
  ◌==◌, Bool-cases, update, word, ℕ, ◌+◌, ◌-◌, ◌*◌, ◌/◌, ◌%◌, ◌^◌, ◌<◌, bit_or, ◌≡◌, refl, ap,
  subst, ◌≢◌, inl, inr, Bool, true, false, not, ◌&&◌, some, List, [], ◌∷◌, ◌++◌, arith,
}

-- The link of an object that is not on a list does not matter to the list.
Chain-update :
    (words : ℕ → ℕ) (a o v : ℕ) (os : List ℕ)
    → count o os ≡ 0
    → Chain words a os
    → Chain (update words o v) a os
unfolding count
Chain-update words a o v [] h c = c
Chain-update words a o v (x ∷ os) h c =
    let apart : (o == x) ≡ false = ground arith in
    (c.0, rw apart (Chain-update words (words x) o v os (ground arith) c.1))

module _ (s : Slab) (i p size n full : ℕ) (free : List ℕ) (v : Page s i p size n full free)
    (o : ℕ) where
  pushed :
      Live s i p n free o
      → 0 < (s.heads p).nr_objs
      → Page (push_object p o s) i p size n 0 (o ∷ free)
        × ((push_object p o s).caches ≡ s.caches)
        × (((push_object p o s).heads p).nr_objs + 1 ≡ (s.heads p).nr_objs)
  unfolding push_object count
  pushed l some_used =
      let self : (p == p) ≡ true = ground arith in
      let here : (o == o) ≡ true = ground arith in
      let less : ((s.heads p).nr_objs + word - 1) % word + 1 ≡ (s.heads p).nr_objs =
        omega (arith, v.live, v.few) in
      (
        record {
          current = v.current;
          sized = v.sized;
          some_size = v.some_size;
          low = v.low;
          high = v.high;
          few = v.few;
          inside = v.inside;
          end = rw self v.end;
          full_flag = rw self refl;
          linked = rw (self, here) (refl, Chain-update s.words _ o _ free l.not_free v.linked);
          objects = ((l.number, l.below, l.address), v.objects);
          distinct = λ x. ground (arith, v.distinct x, l.not_free, ap (λ y. count y free));
          live = rw self (omega (arith, v.live));
        },
        refl,
        rw self less,
      )

-- Lists of the cache that are not those of the page do not matter to it.
relisted :
    (t : Slab) (i p size n full : ℕ) (free : List ℕ) (partial full_list : List ℕ)
    → Page t i p size n full free
    → let c = record (t.caches i) { partial = partial; full = full_list } in
      Page (record t { caches = update t.caches i c }) i p size n full free
relisted t i p size n full free partial full_list v =
    let mine : (i == i) ≡ true = ground arith in
    record {
      current = rw mine v.current;
      sized = rw mine v.sized;
      some_size = rw mine v.some_size;
      low = v.low;
      high = v.high;
      few = v.few;
      inside = rw mine v.inside;
      end = rw mine v.end;
      full_flag = v.full_flag;
      linked = v.linked;
      objects = rw mine v.objects;
      distinct = v.distinct;
      live = v.live;
    }

settled :
    (t : Slab) (i p size n : ℕ) (free : List ℕ) (iffull : Bool)
    → Page t i p size n 0 free
    → (t.heads p).nr_objs ≢ 0
    → (t' : Slab) × (settle i p iffull t ≡ some t') × Page t' i p size n 0 free
unfolding settle
settled t i p size n free iffull v used =
    let u : ((t.heads p).nr_objs == 0) ≡ false = ground arith in
    elim (Bool-cases (not (is_listed p (t.caches i)))) [
      | inl e ↦ (t, rw (u, e) refl, v)
      | inr e ↦ elim (Bool-cases iffull) [
        | inl f ↦
            let c = unlist p (t.caches i) in
            (
              put_cache i (record c { partial = c.partial ++ p ∷ [] }) t,
              rw (u, e, f) refl,
              relisted t i p size n 0 free (c.partial ++ p ∷ []) c.full v,
            )
        | inr f ↦ (t, rw (u, e, f) refl, v)
      ]
    ]

abbrev iffull_of : Slab → ℕ → Bool
iffull_of s p = (s.buddy.pages p).slabp == 0 && not ((s.heads p).is_full == 0)

module _ (s : Slab) (i p size n full : ℕ) (free : List ℕ) (v : Page s i p size n full free)
    (o a : ℕ) where
  freed :
      Live s i p n free o
      → 1 < (s.heads p).nr_objs
      → a / 2 ^ 12 ≡ p
      → bit_or a kernel_entry ≡ o
      → (s' : Slab) × (slab_free i a s ≡ some s') × Page s' i p size n 0 (o ∷ free)
  unfolding slab_free
  freed l used at addr =
      let (w, _, less) = pushed s i p size n full free v o l (omega arith) in
      let e : ((s.heads p).nr_objs == 0) ≡ false = ground arith in
      let (s', done, w') =
        settled (push_object p o s) i p size n (o ∷ free) (iffull_of s p) w (omega arith) in
      (s', rw (at, addr, e) done, w')

  -- On the current page of a cache, in good order, `slab_free` of an object in use, while another one of
  -- the page is in use too, and `slab_alloc` behind it: the same object is handed out again, the free
  -- objects are those of before, and the page does not count as full any more, even if it did.
  pub slab_alloc-slab_free :
      Live s i p n free o
      → 1 < (s.heads p).nr_objs
      → a / 2 ^ 12 ≡ p
      → bit_or a kernel_entry ≡ o
      → (s' : Slab) × (s'' : Slab) × (slab_free i a s ≡ some s')
        × (slab_alloc i s' ≡ some (s'', some o))
        × Page s'' i p size n 0 free
  slab_alloc-slab_free l used at addr =
      let (s', done, w) = freed l used at addr in
      let (s'', again, w') = slab_alloc-freed s' i p size n 0 o free w in (s', s'', done, again, w')

-- On a current page that was full, without a free object and with two or more in use, whose last object
-- leaves less than one more behind it, one `slab_free` and two calls of `slab_alloc`: the second one
-- answers an object that reaches over the end of the page.
pub slab_alloc-overrun :
    (s : Slab) (i p size n o a : ℕ)
    → Page s i p size n 1 []
    → Live s i p n [] o
    → 1 < (s.heads p).nr_objs
    → a / 2 ^ 12 ≡ p
    → bit_or a kernel_entry ≡ o
    → 2 ^ 12 < 12 + size * (n + 1)
    → 12 + size * (n + 1) < 2 ^ 13
    → n + 1 < 2 ^ 13
    → (s₁ : Slab) × (s₂ : Slab) × (s₃ : Slab) × (o' : ℕ) × (slab_free i a s ≡ some s₁)
      × (slab_alloc i s₁ ≡ some (s₂, some o))
      × (slab_alloc i s₂ ≡ some (s₃, some o'))
      × (kmem_addr p + 2 ^ 12 < o' + (s₃.caches i).size)
slab_alloc-overrun s i p size n o a v l used at addr over room few =
    let (s₁, s₂, e₁, e₂, w) = slab_alloc-slab_free s i p size n 1 [] v o a l used at addr in
    let (s₃, e₃, w') = slab_alloc-next s₂ i p size n w (rw w.sized room) few in
    let more : size * (n + 1) ≡ size * n + size = omega arith in
    (
      s₁,
      s₂,
      s₃,
      kmem_addr p + 12 + size * n,
      e₁,
      e₂,
      subst (λ z. slab_alloc i s₂ ≡ some (s₃, some (kmem_addr p + 12 + z * n))) w.sized e₃,
      rw w'.sized (omega arith),
    )
