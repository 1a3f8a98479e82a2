-- ===== src/Smart/Clients/Steps.antt =====
-- What the operations of a program do to the objects, and to what its handles point to.
use jsntp_lcdd.Smart.Runs.{◌>>=◌, return}
use jsntp_lcdd.Prelude.{
  ℕ, ◌+◌, ◌<◌, ◌≡◌, refl, sym, ap, ◌∙◌, subst, Option, none, some, ==_iff, arith, Option-cases, inl,
  inr,
}
use jsntp_lcdd.Smart.Defs.{
  Root, Store, Handle, M, root_ptr, new_root, add_ref, del_root, share, take_over, count_root, make,
  copy, assign, assign_ptr, drop, detach, attach,
}
use jsntp_lcdd.Smart.Counting.{shared, counted_up, share_lem}
use jsntp_lcdd.Smart.Clients.{is_object}
use jsntp_lcdd.Smart.Clients.Objects.{
  Later, After, Hands, After-then, After-none, After-some, Later-refl, below, recounted-Later,
  new-Later, return-Hands, add_ref-Hands, del_ref-Hands,
}

-- A handle with a root has the pointer of that root.
abbrev pub Target : Handle → Store → Type 0
Target h s =
    (id : ℕ)
    → h.root ≡ some id
    → (id < s.fresh) × ((q : Root) → s.roots id ≡ some q → q.ptr ≡ h.ptr)

pub Target-Later : (p n : ℕ) (s s' : Store) (h : Handle) → Later p n s s' → Target h s → Target h s'
Target-Later p n s s' h l t id e = (
  omega (arith, (t id e).0, l.grows),
  λ q' f. let (q, g, same) = l.same id q' (t id e).0 f in sym same ∙ (t id e).1 q g,
)

abbrev pub Done : {A : Type 0} → A → Store → Type 0
Done a s = Unit {0}

module _ (p : ℕ) where
  bind-Hands :
      {A B : Type 0} (n k t : ℕ) (P : A → Store → Type 0) (Q : B → Store → Type 0) (m : M A)
      (f : A → M B)
      → n + k ≡ t
      → Hands p n m P
      → ((a : A) → Hands p k (f a) Q)
      → Hands p t (m >>= f) Q
  bind-Hands n k t P Q m f e w next s d =
      subst (λ x. After p x Q s ((m >>= f) s)) e
        (After-then p n k P Q s (m s) f (w s d) (λ a s' c d'. next a s' d'))

  del_root-Hands : (r : Option ℕ) → Hands p 0 (del_root r) Done
  unfolding del_root
  del_root-Hands none s d = return-Hands p Done tt s d tt
  del_root-Hands (some id) s d = del_ref-Hands p id s d

  share-Hands : (stale r : Option ℕ) → Hands p 0 (share stale r) Target
  unfolding share root_ptr add_ref
  share-Hands stale none s d =
      return-Hands p Target (record { ptr = stale; root = none }) s d (λ id e. cc)
  share-Hands stale (some id) s d = elim (Option-cases (s.roots id)) [
    | inl e ↦ After-none p 0 Target s _ (ground (arith, e))
    | inr (r, e) ↦
        After-some p 0 Target s _ (shared r id) (counted_up s id r) (share_lem stale s id r e)
          (recounted-Later p s id r (r.ref_count + 1) d e)
          (λ k f. ground (arith, below s id r d e, ==_iff id k))
  ]

  take_over-Hands : (stale r : Option ℕ) → Hands p 0 (take_over stale r) Target
  unfolding take_over root_ptr
  take_over-Hands stale none s d =
      return-Hands p Target (record { ptr = stale; root = none }) s d (λ id e. cc)
  take_over-Hands stale (some id) s d = elim (Option-cases (s.roots id)) [
    | inl e ↦ After-none p 0 Target s _ (ground (arith, e))
    | inr (r, e) ↦
        After-some p 0 Target s _ (record { ptr = r.ptr; root = some id }) s (ground (arith, e))
          (Later-refl p s d)
          (λ k f. (
            ground (arith, below s id r d e),
            λ q g. ground (arith, ap s.roots {x = id} {y = k} (ground arith)),
          ))
  ]

  new_root-Hands : (q : Option ℕ) → Hands p (is_object p q) (new_root q) Done
  unfolding new_root
  new_root-Hands q s d = (new-Later p q s d, tt)

  -- A root of its own for a plain pointer.
  fresh_share-Hands :
      (stale q : Option ℕ)
      → Hands p (is_object p q) (new_root q >>= λ id. share stale (some id)) Target
  fresh_share-Hands stale q =
      bind-Hands (is_object p q) 0 _ Done Target (new_root q) (λ id. share stale (some id))
        (omega arith) (new_root-Hands q) (λ id. share-Hands stale (some id))

  pub make-Hands : (q : Option ℕ) → Hands p (is_object p q) (make q) Target
  unfolding make
  make-Hands q = fresh_share-Hands none q

  pub copy-Hands : (h : Handle) → Hands p 0 (copy h) Target
  unfolding copy
  copy-Hands h = share-Hands none h.root

  pub drop-Hands : (h : Handle) → Hands p 0 (drop h) Done
  unfolding drop
  drop-Hands h = del_root-Hands h.root

  pub assign-Hands : (h g : Handle) → Hands p 0 (assign h g) Target
  unfolding assign
  assign-Hands h g =
      bind-Hands 0 0 0 Done Target (del_root h.root) (λ u. share h.ptr g.root) refl
        (del_root-Hands h.root) (λ u. share-Hands h.ptr g.root)

  pub assign_ptr-Hands :
      (h : Handle) (q : Option ℕ) → Hands p (is_object p q) (assign_ptr h q) Target
  unfolding assign_ptr
  assign_ptr-Hands h q =
      bind-Hands 0 (is_object p q) _ Done Target (del_root h.root)
        (λ u. new_root q >>= λ id. share h.ptr (some id)) (omega arith) (del_root-Hands h.root)
        (λ u. fresh_share-Hands h.ptr q)

  count_root-Hands : (r : Option ℕ) → Hands p 0 (count_root r) Done
  unfolding count_root
  count_root-Hands none s d = return-Hands p {A = Option ℕ} Done none s d tt
  count_root-Hands (some id) s d =
      bind-Hands 0 0 0 Done Done (add_ref id) (λ u. return (some id)) refl (add_ref-Hands p id)
        (λ u s d. return-Hands p Done (some id) s d tt) s d

  pub moved-Hands : (h g : Handle) → Hands p 0 (detach h >>= attach g) Target
  unfolding detach attach
  moved-Hands h g =
      bind-Hands 0 0 0 Done Target (count_root h.root) (attach g) refl (count_root-Hands h.root)
        (λ r.
          bind-Hands 0 0 0 Done Target (del_root g.root) (λ u. take_over g.ptr r) refl
            (del_root-Hands g.root) (λ u. take_over-Hands g.ptr r))
