-- ===== src/Smart/Endings.antt =====
-- The end of an object of `SmartPointerNTS`.
use mathlib.Core.Path.{fun_ext}
use jsntp_lcdd.Smart.Runs.{◌>>◌, first_step, first_crash}
use jsntp_lcdd.Prelude.{
  ℕ, ◌≡◌, inl, inr, refl, sym, ap, ◌∙◌, subst, true, false, Option, none, some, ◌==◌, ==_iff, arith,
  Bool-cases, Option-cases,
}
use jsntp_lcdd.Smart.Defs.{Root, Store}
use jsntp_lcdd.Smart.Defs
use jsntp_lcdd.Smart.Nts.{Object, Heap, place, lowered, del_root, drop, del_ref}
use jsntp_lcdd.Smart.View.{root_at, roots_of, view, AtRoot, del_ref-at}
use jsntp_lcdd.Smart.Refinement.{found, crashed, went, release, HandleAt}

-- What of a result can be seen in the roots.
abbrev pub left : Option (Unit {0} × Heap) → Option (Unit {0} × Store)
left none = none
left (some (u, h)) = some (u, roots_of h)

module _ (h : Heap) (this : ℕ) (a : Object) (e : h.objects this ≡ some a)
    (n : a.is_root ≡ false) where
  unseen : roots_of (place this none h) ≡ roots_of h
  unseen =
      ap (λ (f : ℕ → Option Root). record { roots = f; fresh = h.fresh; deleted = h.deleted })
        (fun_ext λ k. elim (Bool-cases (this == k)) [
          | inl s ↦
              rw (s, root_at)
                (sym (rw (ap h.objects (sym ((==_iff this k).0 s)) ∙ e, n, root_at) refl))
          | inr s ↦ rw s refl
        ])

  -- A root is called in the same way from a handle's own `delRef`.
  through_none : a.root ≡ none → del_ref 2 this h ≡ some (tt, h)
  unfolding del_ref
  through_none r = rw (e, n, r, del_ref) refl

  through_gone : (r : ℕ) → a.root ≡ some r → h.objects r ≡ none → del_ref 2 this h ≡ none
  unfolding del_ref
  through_gone r s g = rw (e, n, s, del_ref) (rw (g, del_ref) refl)

  through_root :
      (r : ℕ) (q : Object)
      → a.root ≡ some r
      → h.objects r ≡ some q
      → q.is_root ≡ true
      → del_ref 2 this h ≡ some (tt, lowered r q h)
  unfolding del_ref
  through_root r q s g t = rw (e, n, s, del_ref) (rw (g, t, del_ref) refl)

through_handle :
    (h : Heap) (this : ℕ) (a : Object) → HandleAt h this a → del_ref 2 this h ≡ del_root a.root h
unfolding del_root del_ref
through_handle h this a p = elim (Option-cases a.root) [
  | inl s ↦ through_none h this a p.here p.no_root s ∙ sym (ap (λ r. del_root r h) s)
  | inr (r, s) ↦ elim (Option-cases (h.objects r)) [
    | inl g ↦
        through_gone h this a p.here p.no_root r s g
        ∙ sym (ap (λ r. del_root r h) s ∙ rw (g, del_ref) refl)
    | inr (q, f) ↦
        let root = subst AtRoot f (p.root r s) in
        through_root h this a p.here p.no_root r q s f root
        ∙ sym (ap (λ r. del_root r h) s ∙ del_ref-at h r q f root)
  ]
]

-- Dropping a handle, in both.
pub drop-refines :
    (h : Heap) (this : ℕ) (a : Object)
    → HandleAt h this a
    → left (drop this h) ≡ Defs.drop (view a) (roots_of h)
unfolding drop Defs.drop
drop-refines h this a p =
    let first : drop this h ≡ (del_ref 2 this >> (λ (h : Heap). some (tt, place this none h))) h =
      ground (arith, found h this a p.here, p.no_root) in
    elim (release h a.root p.root) [
      | crashed c d ↦
          ap left (
            first
            ∙ first_crash (del_ref 2 this) (λ _ h. some (tt, place this none h)) h
                (through_handle h this a p ∙ c))
          ∙ sym d
      | went h' c d f ↦
          ap left (
            first
            ∙ first_step (del_ref 2 this) (λ _ h. some (tt, place this none h)) h tt h'
                (through_handle h this a p ∙ c))
          ∙ ap (λ (s : Store). some (tt, s))
              (unseen h' this a (f.others this a p.here p.no_root) p.no_root)
          ∙ sym d
    ]
