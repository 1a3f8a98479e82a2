-- ===== src/Smart/Refinement.antt =====
-- The operations of `SmartPointerNTS` against those of `SmartPointer` in one thread.
use jsntp_lcdd.Smart.Runs.{◌>>=◌, ◌>>◌, first_step, first_crash}
use jsntp_lcdd.Prelude.{
  ℕ, ◌+◌, ◌≡◌, inl, inr, refl, sym, ap, ◌∙◌, subst, true, false, Option, none, some, ◌==◌, ==_iff,
  arith, Option-cases,
}
use jsntp_lcdd.Smart.Defs.{Root, Store, Handle, put}
use jsntp_lcdd.Smart.Defs
use jsntp_lcdd.Smart.Counting.{counted_up, share_lem}
use jsntp_lcdd.Smart.Nts
use jsntp_lcdd.Smart.Nts.{
  Object, Heap, place, find, write, add_ref, lowered, del_ref, del_root, new_root, share,
  assign_ptr, assign,
}
use jsntp_lcdd.Smart.View.{
  root_at, roots_of, view, AtRoot, seen, Frame, roots_place, root_at-some, roots_kept,
  lowered_roots, lowered-Frame, del_ref-at,
}

pub found : (h : Heap) (id : ℕ) (o : Object) → h.objects id ≡ some o → find id h ≡ some (o, h)
found h id o e = ground (arith, e)

pub seen-at :
    (this : ℕ) (a : Object) (h : Heap)
    → h.objects this ≡ some a
    → seen this (some (tt, h)) ≡ some (view a, roots_of h)
seen-at this a h e = rw (e, seen) refl

pub placed : (this : ℕ) (o : Option Object) (h : Heap) → (place this o h).objects this ≡ o
placed this o h = ground (arith, ==_iff this this)

pub add_ref-at :
    (h : Heap) (id : ℕ) (o : Object)
    → h.objects id ≡ some o
    → o.is_root ≡ true
    → add_ref 2 id h ≡ some (tt, place id (some (record o { ref_count = o.ref_count + 1 })) h)
unfolding add_ref
add_ref-at h id o e r = rw (e, r, add_ref) refl

module _ (h : Heap) (this : ℕ) (a : Object) (e : h.objects this ≡ some a)
    (n : a.is_root ≡ false) where
  none_shared : seen this (share this a none h) ≡ Defs.share a.ptr none (roots_of h)
  unfolding share Defs.share
  none_shared =
      let a' : Object = record a { root = none } in
      seen-at this a' (place this (some a') h) (placed this (some a') h)
      ∙ ap (λ (s : Store). some (view a', s)) (roots_kept h this a a' e n n)

  gone_shared :
      (r : ℕ)
      → h.objects r ≡ none
      → seen this (share this a (some r) h) ≡ Defs.share a.ptr (some r) (roots_of h)
  unfolding share Defs.share Defs.root_ptr
  gone_shared r g =
      let lost : share this a (some r) h ≡ none = ground (arith, g) in
      let lost' : Defs.share a.ptr (some r) (roots_of h) ≡ none = ground (arith, g) in
      ap (seen this) lost ∙ sym lost'

  root_shared :
      (r : ℕ) (q : Object)
      → h.objects r ≡ some q
      → q.is_root ≡ true
      → seen this (share this a (some r) h) ≡ Defs.share a.ptr (some r) (roots_of h)
  unfolding share add_ref
  root_shared r q f root =
      let apart : (this == r) ≡ false = ground (arith, ==_iff this r) in
      let apart' : (r == this) ≡ false = ground (arith, ==_iff r this) in
      let a' : Object = record a { root = some r; ptr = q.ptr } in
      let q' : Object = record q { ref_count = q.ref_count + 1 } in
      let h1 : Heap = place this (some a') h in
      let h2 : Heap = place r (some q') h1 in
      let done : share this a (some r) h ≡ some (tt, h2) =
        first_step (find r)
          (λ p. write this (record a { root = some r; ptr = p.ptr }) >> add_ref 2 r) h q h
          (found h r q f)
        ∙ add_ref-at h1 r q (rw apart f) root in
      let here : h2.objects this ≡ some a' = ground (arith, ==_iff this this) in
      let same : roots_of h2
          ≡ counted_up (roots_of h) r (record { ptr = q.ptr; ref_count = q.ref_count }) =
        ap (λ (g : ℕ → Option Root). record { roots = g; fresh = h.fresh; deleted = h.deleted })
          (roots_place h1 r (some q')
            ∙ ap (put (λ k. root_at (h1.objects k)) r) (root_at-some q' root))
        ∙ ap (λ (s : Store). counted_up s r (record { ptr = q.ptr; ref_count = q.ref_count }))
            (roots_kept h this a a' e n n) in
      ap (seen this) done
      ∙ seen-at this a' h2 here
      ∙ ap (λ (s : Store). some (view a', s)) same
      ∙ sym (
          share_lem a.ptr (roots_of h) r (record { ptr = q.ptr; ref_count = q.ref_count })
            (ap root_at f ∙ root_at-some q root))

  -- A root that is there or was deleted.
  pub share-refines :
      (r : Option ℕ)
      → ((id : ℕ) → r ≡ some id → AtRoot (h.objects id))
      → seen this (share this a r h) ≡ Defs.share a.ptr r (roots_of h)
  share-refines none at = none_shared
  share-refines (some r) at = elim (Option-cases (h.objects r)) [
    | inl g ↦ gone_shared r g
    | inr (q, f) ↦ root_shared r q f (subst AtRoot f (at r refl))
  ]

-- What `delRef` on the old root of a handle does in both.
pub data Released (h : Heap) (r : Option ℕ) : Type 0 where
  crashed : del_root r h ≡ none → Defs.del_root r (roots_of h) ≡ none → Released h r
  went :
      (h' : Heap)
      → del_root r h ≡ some (tt, h')
      → Defs.del_root r (roots_of h) ≡ some (tt, roots_of h')
      → Frame h h'
      → Released h r

pub release :
    (h : Heap) (r : Option ℕ) → ((id : ℕ) → r ≡ some id → AtRoot (h.objects id)) → Released h r
unfolding del_root Defs.del_root
release h none at =
    went h refl refl (record { others = λ k a e n. e; roots = λ k t. t; same_fresh = refl })
release h (some r) at = elim (Option-cases (h.objects r)) [
  | inl g ↦ crashed (rw (g, del_ref) refl) (rw (ap root_at g, Defs.del_ref) refl)
  | inr (q, f) ↦
      let root = subst AtRoot f (at r refl) in
      went (lowered r q h) (del_ref-at h r q f root) (lowered_roots h r q f root)
        (lowered-Frame h r q f root)
]

-- The handle at an address, whose root is there or was deleted.
pub record HandleAt (h : Heap) (this : ℕ) (a : Object) : Type 0 where
  pub here : h.objects this ≡ some a
  pub no_root : a.is_root ≡ false
  pub root : (id : ℕ) → a.root ≡ some id → AtRoot (h.objects id)

abbrev rest : (other this : ℕ) → Object → Nts.M (Unit {0})
rest other this a = del_root a.root >> (find other >>= λ o. share this a o.root)

-- Where two handles of SmartPointerNTS have roots that are there or were deleted, assigning
-- one to the other, or a handle to itself, makes of the first handle, the roots and the
-- deleted objects what the assignment of SmartPointer makes of them, and uses a deleted root
-- exactly when that does.
pub assign-refines :
    (h : Heap) (this other : ℕ) (a b : Object)
    → HandleAt h this a
    → HandleAt h other b
    → seen this (assign this other h) ≡ Defs.assign (view a) (view b) (roots_of h)
unfolding assign Defs.assign
assign-refines h this other a b p q = elim (release h a.root p.root) [
  | crashed c d ↦
      let lost : assign this other h ≡ none =
        first_step (find this) (rest other this) h a h (found h this a p.here)
        ∙ first_crash (del_root a.root) (λ _. find other >>= λ o. share this a o.root) h c in
      let lost' : Defs.assign (view a) (view b) (roots_of h) ≡ none = ground (arith, d) in
      ap (seen this) lost ∙ sym lost'
  | went h' c d f ↦
      let b_here = f.others other b q.here q.no_root in
      let a_here = f.others this a p.here p.no_root in
      let up : (id : ℕ) → b.root ≡ some id → AtRoot (h'.objects id) =
        λ id e. f.roots id (q.root id e) in
      let run : assign this other h ≡ share this a b.root h' =
        first_step (find this) (rest other this) h a h (found h this a p.here)
        ∙ first_step (del_root a.root) (λ _. find other >>= λ o. share this a o.root) h tt h' c
        ∙ first_step (find other) (λ o. share this a o.root) h' b h' (found h' other b b_here) in
      let run' : Defs.assign (view a) (view b) (roots_of h)
          ≡ Defs.share a.ptr b.root (roots_of h') =
        ground (arith, d) in
      ap (seen this) run ∙ share-refines h' this a a_here p.no_root b.root up ∙ sym run'
]
