-- ===== src/Ring/Effects.antt =====
-- What each operation of list.h does to a list.
use mathlib.Core.List.{append-nil}
use ninix.Ring.{
  Links, init_list_head, unlink_between, list_add, list_add_tail, list_del, list_del_init,
  list_move, list_move_tail, list_empty, for_each, list_for_each, poison1, poison2,
}
use ninix.Ring.Chain.{
  mem, ◌∉◌, Distinct, mem-append, Chain, Apart, Ring, last, first, next-first, prev-last,
  Chain-frame, Chain-split,
}
use ninix.Ring.Edit.{Chain-link_between, Chain-unlink_between}
use ninix.Base.{length, ℕ, zero, suc, ◌<◌, ◌≡◌, refl, ◌↔◌, true, some, List, [], ◌∷◌, ◌++◌, arith}

Distinct-insert :
    (ys : List ℕ) (x : ℕ) (zs : List ℕ)
    → Distinct (ys ++ zs)
    → x ∉ (ys ++ zs)
    → Distinct (ys ++ x ∷ zs)
Distinct-insert [] x zs d out = (out, d)
Distinct-insert (y ∷ ys) x zs d out = (
  ground (arith, mem-append y ys zs, mem-append y ys (x ∷ zs), d.0),
  Distinct-insert ys x zs d.1 (ground arith),
)

Distinct-remove :
    (ys : List ℕ) (x : ℕ) (zs : List ℕ)
    → Distinct (ys ++ x ∷ zs)
    → Distinct (ys ++ zs) × (x ∉ (ys ++ zs))
Distinct-remove [] x zs d = (d.1, d.0)
Distinct-remove (y ∷ ys) x zs d =
    let (e, out) = Distinct-remove ys x zs d.1 in
    (
      (ground (arith, mem-append y ys zs, mem-append y ys (x ∷ zs), d.0), e),
      ground (arith, mem-append y ys (x ∷ zs), d.0),
    )

Apart-insert :
    (a : ℕ) (ys : List ℕ) (x : ℕ) (zs : List ℕ)
    → Apart a (ys ++ zs) a
    → x ∉ (a ∷ ys ++ zs)
    → Apart a (ys ++ x ∷ zs) a
Apart-insert a ys x zs d out =
    let l : a ∉ (ys ++ x ∷ zs) =
      ground (arith, mem-append a ys zs, mem-append a ys (x ∷ zs), d.left) in
    record { left = l; right = l; inner = Distinct-insert ys x zs d.inner (ground arith) }

-- Without an inner node, which then is outside of the list.
Apart-remove :
    (a : ℕ) (ys : List ℕ) (x : ℕ) (zs : List ℕ)
    → Apart a (ys ++ x ∷ zs) a
    → Apart a (ys ++ zs) a × (x ∉ (a ∷ ys ++ zs))
Apart-remove a ys x zs d =
    let (e, out) = Distinct-remove ys x zs d.inner in
    let l : a ∉ (ys ++ zs) = ground (arith, mem-append a ys zs, mem-append a ys (x ∷ zs), d.left) in
    (record { left = l; right = l; inner = e }, ground (arith, mem-append a ys (x ∷ zs), d.left))

-- A list survives every change outside of its head and its nodes.
pub Ring-frame :
    (m n : Links) (h : ℕ) (xs : List ℕ)
    → Ring m h xs
    → ((q : ℕ) → mem q (h ∷ xs) ≡ true → (n.next q ≡ m.next q) × (n.prev q ≡ m.prev q))
    → Ring n h xs
Ring-frame m n h xs r same = record {
  chain = Chain-frame m n h xs h r.chain (λ q i. (same q i).0) (λ q i. (same q i).1);
  apart = r.apart;
}

-- The neighbours of an inner node.
neighbours :
    (m : Links) (h : ℕ) (ys : List ℕ) (x : ℕ) (zs : List ℕ)
    → Ring m h (ys ++ x ∷ zs)
    → (m.prev x ≡ last h ys) × (m.next x ≡ first zs h)
neighbours m h ys x zs r =
    let (l, r') = Chain-split m h ys x zs h r.chain in
    (prev-last m h ys x l, next-first m x zs h r')

-- `INIT_LIST_HEAD` makes an empty list.
pub init_list_head-Ring : (m : Links) (h : ℕ) → Ring (init_list_head h m) h []
unfolding init_list_head
init_list_head-Ring m h = ground arith

-- `list_add` of a node that is outside of the list: it comes first, the others follow in their order,
-- and every `next` is answered by a `prev`.
pub list_add-Ring :
    (m : Links) (new h : ℕ) (xs : List ℕ)
    → Ring m h xs
    → new ∉ (h ∷ xs)
    → Ring (list_add new h m) h (new ∷ xs)
unfolding list_add
list_add-Ring m new h xs r out = record {
  chain =
      Chain-link_between m h [] xs h new h (m.next h) refl (next-first m h xs h r.chain) r.chain
        r.apart (ground arith);
  apart = Apart-insert h [] new xs r.apart out;
}

out_twice : (new h : ℕ) (xs : List ℕ) → new ∉ (h ∷ xs) → new ∉ (h ∷ h ∷ xs)
out_twice new h xs out = ground arith

-- `list_add_tail` of a node that is outside of the list: it comes last.
pub list_add_tail-Ring :
    (m : Links) (new h : ℕ) (xs : List ℕ)
    → Ring m h xs
    → new ∉ (h ∷ xs)
    → Ring (list_add_tail new h m) h (xs ++ new ∷ [])
unfolding list_add_tail
list_add_tail-Ring m new h xs r out =
    let e = append-nil xs in
    record {
      chain =
          Chain-link_between m h xs [] h new (m.prev h) h (prev-last m h xs h r.chain) refl
            (rw e r.chain) (rw e r.apart) (rw e (out_twice new h xs out));
      apart = Apart-insert h xs new [] (rw e r.apart) (rw e out);
    }

-- Unlinking is the part that the three ways to take a node out share.
unlinked :
    (m : Links) (h : ℕ) (ys : List ℕ) (x : ℕ) (zs : List ℕ)
    → Ring m h (ys ++ x ∷ zs)
    → Ring (unlink_between (m.prev x) (m.next x) m) h (ys ++ zs) × (x ∉ (h ∷ ys ++ zs))
unlinked m h ys x zs r =
    let (p, n) = neighbours m h ys x zs r in
    let (d, out) = Apart-remove h ys x zs r.apart in
    (record { chain = Chain-unlink_between m h ys x zs h _ _ p n r.chain r.apart; apart = d }, out)

-- `list_del` of any node of a list: the others stay in order, and the pointers of the node are the
-- poison.
pub list_del-Ring :
    (m : Links) (h : ℕ) (ys : List ℕ) (x : ℕ) (zs : List ℕ)
    → Ring m h (ys ++ x ∷ zs)
    → Ring (list_del x m) h (ys ++ zs)
      × ((list_del x m).prev x ≡ poison1)
      × ((list_del x m).next x ≡ poison2)
unfolding list_del
list_del-Ring m h ys x zs r =
    let (r', out) = unlinked m h ys x zs r in
    (
      Ring-frame _ _ h (ys ++ zs) r' (λ q i. (ground arith, ground arith)),
      ground arith,
      ground arith,
    )

-- `list_del_init` of any node of a list: the others stay in order, and the node is an empty list of
-- its own.
pub list_del_init-Ring :
    (m : Links) (h : ℕ) (ys : List ℕ) (x : ℕ) (zs : List ℕ)
    → Ring m h (ys ++ x ∷ zs)
    → Ring (list_del_init x m) h (ys ++ zs) × Ring (list_del_init x m) x []
unfolding list_del_init init_list_head
list_del_init-Ring m h ys x zs r =
    let (r', out) = unlinked m h ys x zs r in
    (Ring-frame _ _ h (ys ++ zs) r' (λ q i. (ground arith, ground arith)), ground arith)

-- `list_move` of any node of a list to its head: the node comes first, the others keep their order.
pub list_move-Ring :
    (m : Links) (h : ℕ) (ys : List ℕ) (x : ℕ) (zs : List ℕ)
    → Ring m h (ys ++ x ∷ zs)
    → Ring (list_move x h m) h (x ∷ ys ++ zs)
unfolding list_move
list_move-Ring m h ys x zs r =
    let (r', out) = unlinked m h ys x zs r in list_add-Ring _ x h (ys ++ zs) r' out

-- `list_move_tail` of any node of a list to its head: the node comes last, the others keep their
-- order.
pub list_move_tail-Ring :
    (m : Links) (h : ℕ) (ys : List ℕ) (x : ℕ) (zs : List ℕ)
    → Ring m h (ys ++ x ∷ zs)
    → Ring (list_move_tail x h m) h ((ys ++ zs) ++ x ∷ [])
unfolding list_move_tail
list_move_tail-Ring m h ys x zs r =
    let (r', out) = unlinked m h ys x zs r in list_add_tail-Ring _ x h (ys ++ zs) r' out

-- `list_empty` holds for the list without nodes and for no other.
pub list_empty_iff :
    (m : Links) (h : ℕ) (xs : List ℕ) → Ring m h xs → (list_empty h m ≡ true) ↔ (xs ≡ [])
unfolding list_empty
list_empty_iff m h [] r = ground (arith, r.chain)
list_empty_iff m h (x ∷ xs) r = ground (arith, r.chain, r.apart.left)

for_each_lem :
    (fuel : ℕ) (m : Links) (a : ℕ) (xs : List ℕ) (h : ℕ)
    → Chain m a xs h
    → h ∉ xs
    → length xs < fuel
    → for_each fuel (m.next a) h m ≡ some xs
unfolding for_each
for_each_lem zero m a xs h c out lt = absurd (omega arith)
for_each_lem (suc fuel) m a [] h c out lt = rw c.0 (ground arith)
for_each_lem (suc fuel) m a (x ∷ xs) h c out lt =
    rw c.0 (ground (arith, for_each_lem fuel m x xs h c.2 (ground arith) (omega arith)))

-- `list_for_each` over a list visits its nodes in order and comes to an end, with one round more than
-- there are nodes.
pub list_for_each_lem :
    (fuel : ℕ) (m : Links) (h : ℕ) (xs : List ℕ)
    → Ring m h xs
    → length xs < fuel
    → list_for_each fuel h m ≡ some xs
list_for_each_lem fuel m h xs r lt = for_each_lem fuel m h xs h r.chain r.apart.left lt
