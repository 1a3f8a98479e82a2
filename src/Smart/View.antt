-- ===== src/Smart/View.antt =====
-- `SmartPointerNTS` with its objects does what `SmartPointer` does with handles and roots, in one thread.
use mathlib.Core.Path.{fun_ext}
use jsntp_lcdd.Prelude.{
  ℕ, ◌-◌, ◌≡◌, inl, inr, refl, sym, ap, ◌∙◌, true, false, Option, none, some, if◌then◌else◌, ◌==◌,
  ==_iff, leb, arith, Bool-cases,
}
use jsntp_lcdd.Smart.Defs.{Root, Store, Handle, put, delete_ptr}
use jsntp_lcdd.Smart.Defs
use jsntp_lcdd.Smart.Nts.{Object, Heap, place, lowered, del_ref}

-- The roots among the objects, and an object as a handle.
abbrev pub root_at : Option Object → Option Root
root_at none = none
root_at (some o) =
    if o.is_root then some (record { ptr = o.ptr; ref_count = o.ref_count }) else none

abbrev pub roots_of : Heap → Store
roots_of h = record { roots = λ id. root_at (h.objects id); fresh = h.fresh; deleted = h.deleted }

abbrev pub view : Object → Handle
view o = record { ptr = o.ptr; root = o.root }

-- Nothing, or a root.
abbrev pub AtRoot : Option Object → Type 0
AtRoot none = Unit {0}
AtRoot (some o) = o.is_root ≡ true

-- What of a result can be seen through the object at `this`.
abbrev pub seen : ℕ → Option (Unit {0} × Heap) → Option (Handle × Store)
seen this none = none
seen this (some (u, h)) = elim (h.objects this) [ none ↦ none | some o ↦ some (view o, roots_of h) ]

-- Another object than a root and the roots stay.
pub record Frame (h h' : Heap) : Type 0 where
  pub others :
      (k : ℕ) (a : Object) → h.objects k ≡ some a → a.is_root ≡ false → h'.objects k ≡ some a
  pub roots : (k : ℕ) → AtRoot (h.objects k) → AtRoot (h'.objects k)
  pub same_fresh : h'.fresh ≡ h.fresh

pub roots_place :
    (h : Heap) (id : ℕ) (o : Option Object)
    → (λ k. root_at ((place id o h).objects k)) ≡ put (λ k. root_at (h.objects k)) id (root_at o)
roots_place h id o =
    fun_ext λ k. elim (Bool-cases (id == k)) [ inl e ↦ rw e refl | inr e ↦ rw e refl ]

pub root_at-some :
    (o : Object)
    → o.is_root ≡ true
    → root_at (some o) ≡ some (record { ptr = o.ptr; ref_count = o.ref_count })
root_at-some o r = rw (r, root_at) refl

-- An object that is no root does not show in the roots.
pub roots_kept :
    (h : Heap) (id : ℕ) (a b : Object)
    → h.objects id ≡ some a
    → a.is_root ≡ false
    → b.is_root ≡ false
    → roots_of (place id (some b) h) ≡ roots_of h
roots_kept h id a b e ra rb =
    ap (λ (f : ℕ → Option Root). record { roots = f; fresh = h.fresh; deleted = h.deleted })
      (fun_ext λ k. elim (Bool-cases (id == k)) [
        | inl s ↦
            rw (s, rb, root_at)
              (sym (rw (ap h.objects (sym ((==_iff id k).0 s)) ∙ e, ra, root_at) refl))
        | inr s ↦ rw s refl
      ])

pub lowered_roots :
    (h : Heap) (id : ℕ) (o : Object)
    → h.objects id ≡ some o
    → o.is_root ≡ true
    → Defs.del_ref id (roots_of h) ≡ some (tt, roots_of (lowered id o h))
unfolding Defs.del_ref
lowered_roots h id o e r =
    let at = ap root_at e ∙ root_at-some o r in
    elim (Bool-cases (leb o.ref_count 1)) [
      | inl low ↦
          rw (at, low, Defs.del_ref)
            (ap
              (λ (f : ℕ → Option Root).
                some
                  (tt, record { roots = f; fresh = h.fresh; deleted = delete_ptr o.ptr h.deleted }))
              (sym (roots_place h id none)))
      | inr high ↦
          let o' : Object = record o { ref_count = o.ref_count - 1 } in
          rw (at, high, Defs.del_ref)
            (ap
              (λ (f : ℕ → Option Root).
                some (tt, record { roots = f; fresh = h.fresh; deleted = h.deleted }))
              (sym (
                roots_place h id (some o')
                ∙ ap (put (λ k. root_at (h.objects k)) id) (root_at-some o' r))))
    ]

pub lowered-Frame :
    (h : Heap) (id : ℕ) (o : Object)
    → h.objects id ≡ some o
    → o.is_root ≡ true
    → Frame h (lowered id o h)
lowered-Frame h id o e r = record {
  others = λ k a s n. ground (arith, ==_iff id k);
  roots = λ k s. ground (arith, ==_iff id k);
  same_fresh = ground arith;
}

pub del_ref-at :
    (h : Heap) (id : ℕ) (o : Object)
    → h.objects id ≡ some o
    → o.is_root ≡ true
    → del_ref 2 id h ≡ some (tt, lowered id o h)
unfolding del_ref
del_ref-at h id o e r = rw (e, r, del_ref) refl
