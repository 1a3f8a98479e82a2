-- ===== src/Smart/Transfer.antt =====
-- `detach` and `attach`: a count that goes from one handle to another through a plain pointer.
use jsntp_lcdd.Smart.Runs.{◌>>=◌}
use jsntp_lcdd.Prelude.{
  ℕ, ◌+◌, ◌∙◌, ◌<◌, ◌≡◌, refl, sym, subst, Option, none, some, List, ◌∷◌, ==_iff, arith,
  Option-cases, inl, inr,
}
use jsntp_lcdd.Smart.Defs.{
  Root, Store, Handle, root_ptr, add_ref, del_root, put, take_over, count_root, detach, attach,
}
use jsntp_lcdd.Smart.Counting.{
  owners, Counted, Works, Works-at, bind-Works, weaken-Works, LastGone, del_root-Works,
  add_ref-Counted,
}

swap_owners :
    (s : Store) (a b : Option ℕ) (rs : List (Option ℕ))
    → Counted s (a ∷ b ∷ rs)
    → Counted s (b ∷ a ∷ rs)
swap_owners s a b rs c = record { count = λ id. ground (arith, c.count id); unused = c.unused }

count_root_lem :
    (s : Store) (id : ℕ) (r : Root)
    → s.roots id ≡ some r
    → count_root (some id) s
      ≡ some (
        some id,
        record s { roots = put s.roots id (some (record r { ref_count = r.ref_count + 1 })) },
      )
unfolding count_root add_ref
count_root_lem s id r e = ground (arith, e)

take_over_lem :
    (s : Store) (stale : Option ℕ) (id : ℕ) (r : Root)
    → s.roots id ≡ some r
    → take_over stale (some id) s ≡ some (record { ptr = r.ptr; root = some id }, s)
unfolding take_over root_ptr
take_over_lem s stale id r e = ground (arith, e)

pub count_root-Works :
    (s : Store) (rs : List (Option ℕ)) (r : Option ℕ)
    → Counted s rs
    → ((id : ℕ) → r ≡ some id → 0 < owners id rs)
    → Works (count_root r s) (λ q s'. Counted s' (q ∷ rs) × (q ≡ r) × (s'.deleted ≡ s.deleted))
unfolding count_root add_ref
count_root-Works s rs none c up = (record { count = c.count; unused = c.unused }, refl, refl)
count_root-Works s rs (some id) c up = elim (Option-cases (s.roots id)) [
  | inl e ↦ absurd (ground (arith, e, c.count id, up id refl))
  | inr (r, e) ↦
      Works-at _ _ (some id)
        (record s { roots = put s.roots id (some (record r { ref_count = r.ref_count + 1 })) })
        (count_root_lem s id r e) (add_ref-Counted {s = s} {rs = rs} id r c e, refl, refl)
]

take_over-Works :
    (s : Store) (rs : List (Option ℕ)) (stale r : Option ℕ)
    → Counted s (r ∷ rs)
    → Works
        (take_over stale r s)
        (λ h s'. Counted s' (h.root ∷ rs) × (h.root ≡ r) × (s'.deleted ≡ s.deleted))
unfolding take_over root_ptr
take_over-Works s rs stale none c = (record { count = c.count; unused = c.unused }, refl, refl)
take_over-Works s rs stale (some id) c = elim (Option-cases (s.roots id)) [
  | inl e ↦ absurd (ground (arith, e, c.count id, ==_iff id id))
  | inr (r, e) ↦
      Works-at {A = Handle} _ _ (record { ptr = r.ptr; root = some id }) s
        (take_over_lem s stale id r e) (c, refl, refl)
]

-- Attaching gives the handle the root that the caller owns, keeps the counts, and deletes the
-- old object exactly when the handle was its last owner.
pub attach-Works :
    {s : Store} {rs : List (Option ℕ)} (h : Handle) (r : Option ℕ)
    → Counted s (h.root ∷ r ∷ rs)
    → Works
        (attach h r s)
        (λ h' s'. Counted s' (h'.root ∷ rs) × (h'.root ≡ r) × LastGone h.root s s'.deleted (r ∷ rs))
unfolding attach
attach-Works {s} {rs} h r c =
    bind-Works (λ u s'. Counted s' (r ∷ rs) × LastGone h.root s s'.deleted (r ∷ rs))
      (λ h' s'. Counted s' (h'.root ∷ rs) × (h'.root ≡ r) × LastGone h.root s s'.deleted (r ∷ rs))
      (del_root h.root s) (λ u. take_over h.ptr r) (del_root-Works {s = s} {rs = r ∷ rs} h.root c)
      (λ u s' (c', gone).
        weaken-Works
          (λ h' s''. Counted s'' (h'.root ∷ rs) × (h'.root ≡ r) × (s''.deleted ≡ s'.deleted))
          (λ h' s''.
            Counted s'' (h'.root ∷ rs) × (h'.root ≡ r) × LastGone h.root s s''.deleted (r ∷ rs))
          (take_over h.ptr r s') (take_over-Works s' rs h.ptr r c')
          (λ h' s'' (c'', e, d). (c'', e, subst (λ x. LastGone h.root s x (r ∷ rs)) (sym d) gone)))

-- Where every count is the number of owners, detaching from a handle whose root has an owner
-- and attaching to another handle uses no deleted root, keeps the counts, and gives that
-- handle the root.
pub transfer-Works :
    {s : Store} {rs : List (Option ℕ)} (h other : Handle)
    → Counted s (other.root ∷ rs)
    → ((id : ℕ) → h.root ≡ some id → 0 < owners id rs)
    → Works ((detach h >>= attach other) s) (λ h' s'. Counted s' (h.root ∷ rs) × (h'.root ≡ h.root))
unfolding detach
transfer-Works {s} {rs} h other c up =
    bind-Works (λ q s'. Counted s' (q ∷ other.root ∷ rs) × (q ≡ h.root) × (s'.deleted ≡ s.deleted))
      (λ h' s'. Counted s' (h.root ∷ rs) × (h'.root ≡ h.root)) (count_root h.root s)
      (λ q. attach other q)
      (count_root-Works s (other.root ∷ rs) h.root c (λ id e. ground (arith, up id e)))
      (λ q s' (c', e, d).
        weaken-Works
          (λ h' s''.
            Counted s'' (h'.root ∷ rs)
            × (h'.root ≡ q)
            × LastGone other.root s' s''.deleted (q ∷ rs))
          (λ h' s''. Counted s'' (h.root ∷ rs) × (h'.root ≡ h.root)) (attach other q s')
          (attach-Works {s = s'} {rs = rs} other q (swap_owners s' q other.root rs c'))
          (λ h' s'' (c'', f, g). (subst (λ x. Counted s'' (x ∷ rs)) (f ∙ e) c'', f ∙ e)))
