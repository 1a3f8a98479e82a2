-- ===== src/Smart/Beginnings.antt =====
-- The constructors of `SmartPointerNTS`, and its `detach`.
use mathlib.Core.Path.{fun_ext}
use jsntp_lcdd.Smart.Runs.{◌>>◌, return, first_step, first_crash}
use jsntp_lcdd.Prelude.{
  ℕ, ◌+◌, ◌≡◌, inl, inr, refl, sym, ap, ◌∙◌, subst, false, Option, none, some, ◌==◌, ==_iff,
  Bool-cases, Option-cases,
}
use jsntp_lcdd.Smart.Defs.{Root, Store, put}
use jsntp_lcdd.Smart.Defs
use jsntp_lcdd.Smart.Counting.{counted_up}
use jsntp_lcdd.Smart.Nts
use jsntp_lcdd.Smart.Nts.{
  Object, Heap, place, find, write, empty, add_ref, new_root, share, make, copy, detach,
}
use jsntp_lcdd.Smart.View.{root_at, roots_of, view, AtRoot, seen, roots_place, root_at-some}
use jsntp_lcdd.Smart.Refinement.{found, placed, add_ref-at, share-refines, HandleAt}
use jsntp_lcdd.Smart.Assignments.{new_shared, with_new_root}

-- A new handle does not show in the roots.
module _ (h : Heap) (this : ℕ) (free : h.objects this ≡ none) where
  abbrev begun : Heap
  begun = place this (some empty) h

  unseen : roots_of begun ≡ roots_of h
  unseen =
      ap (λ (f : ℕ → Option Root). record { roots = f; fresh = h.fresh; deleted = h.deleted })
        (fun_ext λ k. elim (Bool-cases (this == k)) [
          | inl s ↦
              rw (s, root_at)
                (sym (rw (ap h.objects (sym ((==_iff this k).0 s)) ∙ free, root_at) refl))
          | inr s ↦ rw s refl
        ])

  kept : (k : ℕ) → (this == k) ≡ false → AtRoot (h.objects k) → AtRoot (begun.objects k)
  kept k apart r = rw apart r

  -- Copying a handle to a new one, in both.
  pub copy-refines :
      (other : ℕ) (b : Object)
      → HandleAt h other b
      → ((id : ℕ) → b.root ≡ some id → (this == id) ≡ false)
      → seen this (copy this other h) ≡ Defs.copy (view b) (roots_of h)
  unfolding copy Defs.copy
  copy-refines other b q apart =
      let run : copy this other h ≡ share this empty b.root begun =
        first_step (find other) (λ o. write this empty >> share this empty o.root) h b h
          (found h other b q.here) in
      ap (seen this) run
      ∙ share-refines begun this empty (placed this (some empty) h) refl b.root
          (λ id e. kept id (apart id e) (q.root id e))
      ∙ ap (Defs.share none b.root) unseen

  -- A handle for a plain pointer.
  pub make-refines :
      (p : Option ℕ)
      → (h.fresh == this) ≡ false
      → seen this (make this p h) ≡ Defs.make p (roots_of h)
  unfolding make Defs.make new_root Defs.new_root
  make-refines p apart =
      new_shared begun this empty p (placed this (some empty) h) refl apart
      ∙ ap (λ (s : Store). Defs.share none (some h.fresh) (with_new_root p s)) unseen

add_ref-gone : (h : Heap) (r : ℕ) → h.objects r ≡ none → add_ref 2 r h ≡ none
unfolding add_ref
add_ref-gone h r g = rw (g, add_ref) refl

root_add_ref-gone : (s : Store) (r : ℕ) → s.roots r ≡ none → Defs.add_ref r s ≡ none
unfolding Defs.add_ref
root_add_ref-gone s r g = rw (g, Defs.add_ref) refl

root_add_ref-at :
    (s : Store) (r : ℕ) (q : Root)
    → s.roots r ≡ some q
    → Defs.add_ref r s ≡ some (tt, counted_up s r q)
unfolding Defs.add_ref
root_add_ref-at s r q e = rw (e, Defs.add_ref) refl

-- What of a result with a root can be seen in the roots.
abbrev pub given : Option (Option ℕ × Heap) → Option (Option ℕ × Store)
given none = none
given (some (r, h)) = some (r, roots_of h)

abbrev count_at : Option ℕ → Nts.M (Option ℕ)
count_at r = elim r [ none ↦ return none | some id ↦ add_ref 2 id >> return (some id) ]

-- A root that is there or was deleted is counted once more in both.
counted-at :
    (h : Heap) (r : Option ℕ)
    → ((id : ℕ) → r ≡ some id → AtRoot (h.objects id))
    → given (count_at r h) ≡ Defs.count_root r (roots_of h)
unfolding Defs.count_root
counted-at h none at = refl
counted-at h (some r) at = elim (Option-cases (h.objects r)) [
  | inl g ↦
      let lost : add_ref 2 r h ≡ none = add_ref-gone h r g in
      let lost' : Defs.add_ref r (roots_of h) ≡ none =
        root_add_ref-gone (roots_of h) r (ap root_at g) in
      ap given (first_crash (add_ref 2 r) (λ _. return (some r)) h lost)
      ∙ sym (first_crash (Defs.add_ref r) (λ _. return (some r)) (roots_of h) lost')
  | inr (q, f) ↦
      let root = subst AtRoot f (at r refl) in
      let q' : Object = record q { ref_count = q.ref_count + 1 } in
      ap given (
        first_step (add_ref 2 r) (λ _. return (some r)) h tt (place r (some q') h)
          (add_ref-at h r q f root))
      ∙ ap
          (λ (g : ℕ → Option Root).
            some (some r, record { roots = g; fresh = h.fresh; deleted = h.deleted }))
          (roots_place h r (some q')
            ∙ ap (put (λ k. root_at (h.objects k)) r) (root_at-some q' root))
      ∙ sym (
          first_step (Defs.add_ref r) (λ _. return (some r)) (roots_of h) tt
            (counted_up (roots_of h) r (record { ptr = q.ptr; ref_count = q.ref_count }))
            (root_add_ref-at (roots_of h) r (record { ptr = q.ptr; ref_count = q.ref_count })
              (ap root_at f ∙ root_at-some q root)))
]

pub detach-refines :
    (h : Heap) (this : ℕ) (a : Object)
    → HandleAt h this a
    → given (detach this h) ≡ Defs.detach (view a) (roots_of h)
unfolding detach Defs.detach
detach-refines h this a p =
    ap given (first_step (find this) (λ o. count_at o.root) h a h (found h this a p.here))
    ∙ counted-at h a.root p.root
