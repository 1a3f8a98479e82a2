-- ===== src/Smart/Handles.antt =====
-- What the constructors, the assignments and the destructor of `SmartPointer` do to the counts.
use jsntp_lcdd.Smart.Runs.{◌>>=◌}
use jsntp_lcdd.Prelude.{ℕ, ◌≤◌, ◌<◌, ◌≡◌, sym, subst, Option, none, some, List, ◌∷◌, arith}
use jsntp_lcdd.Smart.Defs.{
  Root, Store, Handle, new_root, root_ptr, add_ref, del_root, share, del_ref, make, copy, drop,
  assign_ptr, assign, empty,
}
use jsntp_lcdd.Smart.Counting.{
  owners, Counted, Works, bind-Works, weaken-Works, LastGone, del_root-Works, share-Works,
}

module _ {s : Store} {rs : List (Option ℕ)} where
  -- `new_root` and `share` together: between them the root has no owner.
  fresh_for :
      Counted s rs
      → (stale p : Option ℕ)
      → Works
          (elim (new_root p s) [ none ↦ none | some (id, s') ↦ share stale (some id) s' ])
          (λ h s'. Counted s' (h.root ∷ rs) × (h.ptr ≡ p) × (s'.deleted ≡ s.deleted))
  unfolding new_root share root_ptr add_ref
  fresh_for c stale p = ground (arith, c.count, c.unused)

  -- A handle made from a pointer has that pointer and a root of its own with one owner.
  pub make-Works :
      (p : Option ℕ)
      → Counted s rs
      → Works (make p s) (λ h s'. Counted s' (h.root ∷ rs) × (h.ptr ≡ p) × (s'.deleted ≡ s.deleted))
  unfolding make
  make-Works p c = fresh_for c none p

  -- Copying a handle whose root has owners keeps the counts with one owner more and deletes
  -- nothing.
  pub copy-Works :
      (other : Handle)
      → Counted s rs
      → ((id : ℕ) → other.root ≡ some id → 0 < owners id rs)
      → Works
          (copy other s)
          (λ h s'. Counted s' (other.root ∷ rs) × (h.root ≡ other.root) × (s'.deleted ≡ s.deleted))
  unfolding copy
  copy-Works other c up = share-Works none other.root c up

  -- Where every count is the number of owners, dropping a handle uses no deleted root, keeps
  -- the counts, and deletes the object exactly when the handle was its last owner.
  pub drop-Works :
      (h : Handle)
      → Counted s (h.root ∷ rs)
      → Works (drop h s) (λ u s'. Counted s' rs × LastGone h.root s s'.deleted rs)
  unfolding drop
  drop-Works h c = del_root-Works h.root c

  -- Where every count is the number of owners, assigning a handle whose root has another owner
  -- than the target uses no deleted root, keeps the counts, and deletes the old object exactly
  -- when the target was its last owner.
  pub assign-Works :
      (h other : Handle)
      → Counted s (h.root ∷ rs)
      → ((id : ℕ) → other.root ≡ some id → 0 < owners id rs)
      → Works (assign h other s) (λ h' s'.
        Counted s' (other.root ∷ rs) × (h'.root ≡ other.root) × LastGone h.root s s'.deleted rs)
  unfolding assign
  assign-Works h other c up =
      bind-Works (λ u s'. Counted s' rs × LastGone h.root s s'.deleted rs)
        (λ h' s'.
          Counted s' (other.root ∷ rs) × (h'.root ≡ other.root) × LastGone h.root s s'.deleted rs)
        (del_root h.root s) (λ u. share h.ptr other.root) (del_root-Works h.root c)
        (λ u s' (c', gone).
          weaken-Works
            (λ h' s''.
              Counted s'' (other.root ∷ rs) × (h'.root ≡ other.root) × (s''.deleted ≡ s'.deleted))
            (λ h' s''.
              Counted s'' (other.root ∷ rs)
              × (h'.root ≡ other.root)
              × LastGone h.root s s''.deleted rs)
            (share h.ptr other.root s') (share-Works h.ptr other.root c' up)
            (λ h' s'' (c'', e, d). (c'', e, subst (λ x. LastGone h.root s x rs) (sym d) gone)))

module _ {s : Store} {rs : List (Option ℕ)} where
  -- Where every count is the number of owners, assigning a plain pointer keeps the counts,
  -- gives the handle that pointer, and deletes the old object exactly when the handle was its
  -- last owner.
  pub assign_ptr-Works :
      (h : Handle) (p : Option ℕ)
      → Counted s (h.root ∷ rs)
      → Works
          (assign_ptr h p s)
          (λ h' s'. Counted s' (h'.root ∷ rs) × (h'.ptr ≡ p) × LastGone h.root s s'.deleted rs)
  unfolding assign_ptr
  assign_ptr-Works h p c =
      bind-Works (λ u s'. Counted s' rs × LastGone h.root s s'.deleted rs)
        (λ h' s'. Counted s' (h'.root ∷ rs) × (h'.ptr ≡ p) × LastGone h.root s s'.deleted rs)
        (del_root h.root s) (λ u. new_root p >>= λ id. share h.ptr (some id))
        (del_root-Works h.root c)
        (λ u s' (c', gone).
          weaken-Works
            (λ h' s''. Counted s'' (h'.root ∷ rs) × (h'.ptr ≡ p) × (s''.deleted ≡ s'.deleted))
            (λ h' s''. Counted s'' (h'.root ∷ rs) × (h'.ptr ≡ p) × LastGone h.root s s''.deleted rs)
            ((new_root p >>= λ id. share h.ptr (some id)) s') (fresh_for c' h.ptr p)
            (λ h' s'' (c'', e, d). (c'', e, subst (λ x. LastGone h.root s x rs) (sym d) gone)))

-- Assigning the last handle of a root to itself uses the root after it was deleted.
pub assign_self-deleted :
    (h : Handle) (s : Store) (id : ℕ) (r : Root)
    → h.root ≡ some id
    → s.roots id ≡ some r
    → r.ref_count ≤ 1
    → assign h h s ≡ none
unfolding assign del_root del_ref share root_ptr
assign_self-deleted h s id r e f up = ground arith

-- Assigning an empty handle to the last handle of an object deletes the object and leaves the
-- handle pointing at it.
pub assign-empty-stale :
    (s : Store) (id p : ℕ)
    → s.roots id ≡ some (record { ptr = some p; ref_count = 1 })
    → Works
        (assign (record { ptr = some p; root = some id }) empty s)
        (λ h' s'. (h'.ptr ≡ some p) × (h'.root ≡ none) × (s'.deleted ≡ p ∷ s.deleted))
unfolding assign del_root del_ref share
assign-empty-stale s id p e = ground arith
