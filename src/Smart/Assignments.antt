-- ===== src/Smart/Assignments.antt =====
-- The other operations of `SmartPointerNTS` that change a handle.
use jsntp_lcdd.Smart.Runs.{◌>>=◌, ◌>>◌, first_step, first_crash}
use jsntp_lcdd.Prelude.{
  ℕ, suc, ◌≡◌, inl, inr, refl, sym, ap, ◌∙◌, subst, true, false, Option, none, some, ◌==◌, ==_iff,
  arith, Option-cases,
}
use jsntp_lcdd.Smart.Defs.{Root, Store, Handle, put}
use jsntp_lcdd.Smart.Defs
use jsntp_lcdd.Smart.Nts.{
  Object, Heap, place, find, write, del_root, new_root, share, take_over, assign_ptr, attach,
}
use jsntp_lcdd.Smart.View.{
  root_at, roots_of, view, AtRoot, seen, roots_place, root_at-some, roots_kept,
}
use jsntp_lcdd.Smart.Refinement.{
  found, seen-at, placed, share-refines, crashed, went, release, HandleAt,
}

module _ (h : Heap) (this : ℕ) (a : Object) (e : h.objects this ≡ some a)
    (n : a.is_root ≡ false) where
  rewritten :
      (a' : Object) → a'.is_root ≡ false → seen this (write this a' h) ≡ some (view a', roots_of h)
  rewritten a' n' =
      seen-at this a' (place this (some a') h) (placed this (some a') h)
      ∙ ap (λ (s : Store). some (view a', s)) (roots_kept h this a a' e n n')

  over_root :
      (r : ℕ) (q : Object)
      → h.objects r ≡ some q
      → q.is_root ≡ true
      → seen this (take_over this a (some r) h) ≡ Defs.take_over a.ptr (some r) (roots_of h)
  unfolding take_over Defs.take_over Defs.root_ptr
  over_root r q f root =
      let at = ap root_at f ∙ root_at-some q root in
      let run =
        first_step (find r) (λ p. write this (record a { root = some r; ptr = p.ptr })) h q h
          (found h r q f) in
      let run' : Defs.take_over a.ptr (some r) (roots_of h)
          ≡ some (record { ptr = q.ptr; root = some r }, roots_of h) =
        ground (arith, at) in
      ap (seen this) run ∙ rewritten (record a { root = some r; ptr = q.ptr }) n ∙ sym run'

  take_over-refines :
      (r : Option ℕ)
      → ((id : ℕ) → r ≡ some id → AtRoot (h.objects id))
      → seen this (take_over this a r h) ≡ Defs.take_over a.ptr r (roots_of h)
  unfolding take_over Defs.take_over Defs.root_ptr
  take_over-refines none at = rewritten (record a { root = none }) n
  take_over-refines (some r) at = elim (Option-cases (h.objects r)) [
    | inl g ↦
        let lost : take_over this a (some r) h ≡ none = ground (arith, g) in
        let lost' : Defs.take_over a.ptr (some r) (roots_of h) ≡ none = ground (arith, g) in
        ap (seen this) lost ∙ sym lost'
    | inr (q, f) ↦ over_root r q f (subst AtRoot f (at r refl))
  ]

-- Attaching a root that is there or was deleted, in both.
pub attach-refines :
    (h : Heap) (this : ℕ) (a : Object) (r : Option ℕ)
    → HandleAt h this a
    → ((id : ℕ) → r ≡ some id → AtRoot (h.objects id))
    → seen this (attach this r h) ≡ Defs.attach (view a) r (roots_of h)
unfolding attach Defs.attach
attach-refines h this a r p at =
    let first =
      first_step (find this) (λ o. del_root o.root >> take_over this o r) h a h
        (found h this a p.here) in
    elim (release h a.root p.root) [
      | crashed c d ↦
          let lost : attach this r h ≡ none =
            first ∙ first_crash (del_root a.root) (λ _. take_over this a r) h c in
          let lost' : Defs.attach (view a) r (roots_of h) ≡ none = ground (arith, d) in
          ap (seen this) lost ∙ sym lost'
      | went h' c d f ↦
          let run : attach this r h ≡ take_over this a r h' =
            first ∙ first_step (del_root a.root) (λ _. take_over this a r) h tt h' c in
          let run' : Defs.attach (view a) r (roots_of h) ≡ Defs.take_over a.ptr r (roots_of h') =
            ground (arith, d) in
          ap (seen this) run
          ∙ take_over-refines h' this a (f.others this a p.here p.no_root) p.no_root r
              (λ id e. f.roots id (at id e))
          ∙ sym run'
    ]

abbrev new_object : Option ℕ → Object
new_object p = record { is_root = true; ptr = p; root = none; ref_count = 0 }

abbrev pub with_new : Option ℕ → Heap → Heap
with_new p h = record (place h.fresh (some (new_object p)) h) { fresh = suc h.fresh }

abbrev pub with_new_root : Option ℕ → Store → Store
with_new_root p s = record s {
  roots = put s.roots s.fresh (some (record { ptr = p; ref_count = 0 }));
  fresh = suc s.fresh;
}

-- Sharing the root that `new` just gave.
pub new_shared :
    (h : Heap) (this : ℕ) (a : Object) (p : Option ℕ)
    → h.objects this ≡ some a
    → a.is_root ≡ false
    → (h.fresh == this) ≡ false
    → seen this (share this a (some h.fresh) (with_new p h))
      ≡ Defs.share a.ptr (some h.fresh) (with_new_root p (roots_of h))
new_shared h this a p here n other =
    share-refines (with_new p h) this a (rw other here) n (some h.fresh)
      (λ id e. ground (arith, ==_iff h.fresh id))
    ∙ ap
        (λ (g : ℕ → Option Root).
          Defs.share a.ptr (some h.fresh)
            (record { roots = g; fresh = suc h.fresh; deleted = h.deleted }))
        (roots_place h h.fresh (some (new_object p)))

-- Assigning a plain pointer, where `new` gives another address than the handle's, in both.
pub assign_ptr-refines :
    (h : Heap) (this : ℕ) (a : Object) (p : Option ℕ)
    → HandleAt h this a
    → (h.fresh == this) ≡ false
    → seen this (assign_ptr this p h) ≡ Defs.assign_ptr (view a) p (roots_of h)
unfolding assign_ptr new_root Defs.assign_ptr Defs.new_root
assign_ptr-refines h this a p q apart =
    let first =
      first_step (find this) (λ o. del_root o.root >> (new_root p >>= λ r. share this o (some r))) h
        a h (found h this a q.here) in
    elim (release h a.root q.root) [
      | crashed c d ↦
          let lost : assign_ptr this p h ≡ none =
            first
            ∙ first_crash (del_root a.root) (λ _. new_root p >>= λ r. share this a (some r)) h c in
          let lost' : Defs.assign_ptr (view a) p (roots_of h) ≡ none = ground (arith, d) in
          ap (seen this) lost ∙ sym lost'
      | went h' c d f ↦
          let run : assign_ptr this p h ≡ share this a (some h'.fresh) (with_new p h') =
            first
            ∙ first_step (del_root a.root) (λ _. new_root p >>= λ r. share this a (some r)) h tt h'
                c in
          let run' : Defs.assign_ptr (view a) p (roots_of h)
              ≡ Defs.share a.ptr (some h'.fresh) (with_new_root p (roots_of h')) =
            ground (arith, d) in
          ap (seen this) run
          ∙ new_shared h' this a p (f.others this a q.here q.no_root) q.no_root
              (rw f.same_fresh apart)
          ∙ sym run'
    ]
