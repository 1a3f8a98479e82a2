-- ===== src/Smart/Counting.antt =====
-- The count of a root of a `SmartPointer` is the number of its owners, under every step of the root.
use jsntp_lcdd.Prelude.{
  ℕ, ◌+◌, ◌-◌, ◌≤◌, ◌<◌, ◌≡◌, refl, sym, subst, Option, none, some, List, [], ◌∷◌, if◌then◌else◌,
  ◌==◌, leb, arith, Option-cases, inl, inr,
}
use jsntp_lcdd.Smart.Defs.{
  Root, Store, Handle, M, put, root_ptr, add_ref, del_ref, del_root, share, delete_ptr,
}

-- The owners of a root: the handles, and the callers of `detach`.
abbrev pub owners : ℕ → List (Option ℕ) → ℕ
owners id [] = 0
owners id (none ∷ rs) = owners id rs
owners id (some r ∷ rs) = (if r == id then 1 else 0) + owners id rs

abbrev pub HasCount : Option Root → ℕ → Type 0
HasCount none n = n ≡ 0
HasCount (some r) n = (n ≡ r.ref_count) × (0 < n)

-- A root is there while it has owners, with their number as its count, and below `fresh`.
pub record Counted (s : Store) (rs : List (Option ℕ)) : Type 0 where
  pub count : (id : ℕ) → HasCount (s.roots id) (owners id rs)
  pub unused : (id : ℕ) → s.fresh ≤ id → s.roots id ≡ none

-- The run uses no deleted root, and its result is as `P` says.
abbrev pub Works : {A : Type 0} → Option (A × Store) → (A → Store → Type 0) → Type 0
Works none P = ⊥
Works (some (a, s)) P = P a s

pub bind-Works :
    {A B : Type 0} (P : A → Store → Type 0) (Q : B → Store → Type 0) (m : Option (A × Store))
    (f : A → M B)
    → Works m P
    → ((a : A) (s : Store) → P a s → Works (f a s) Q)
    → Works (elim m [ none ↦ none | some (a, s') ↦ f a s' ]) Q
bind-Works P Q none f w k = w
bind-Works P Q (some (a, s)) f w k = k a s w

pub weaken-Works :
    {A : Type 0} (P Q : A → Store → Type 0) (m : Option (A × Store))
    → Works m P
    → ((a : A) (s : Store) → P a s → Q a s)
    → Works m Q
weaken-Works P Q none w k = w
weaken-Works P Q (some (a, s)) w k = k a s w

pub Works-at :
    {A : Type 0} (P : A → Store → Type 0) (m : Option (A × Store)) (a : A) (s : Store)
    → m ≡ some (a, s)
    → P a s
    → Works m P
Works-at P m a s e p = subst (λ x. Works x P) (sym e) p

-- What was deleted when a root lost an owner.
abbrev pub LastGone : Option ℕ → Store → (deleted : List ℕ) → List (Option ℕ) → Type 0
LastGone none s deleted rs = deleted ≡ s.deleted
LastGone (some id) s deleted rs =
    (r : Root)
    → s.roots id ≡ some r
    → deleted ≡ (if owners id rs == 0 then delete_ptr r.ptr s.deleted else s.deleted)

-- The store that `del_ref` leaves.
abbrev deleted_ref : Store → ℕ → Root → Store
deleted_ref s id r =
    if leb r.ref_count 1
    then record s { roots = put s.roots id none; deleted = delete_ptr r.ptr s.deleted }
    else record s { roots = put s.roots id (some (record r { ref_count = r.ref_count - 1 })) }

del_ref_lem :
    (s : Store) (id : ℕ) (r : Root)
    → s.roots id ≡ some r
    → del_ref id s ≡ some (tt, deleted_ref s id r)
unfolding del_ref
del_ref_lem s id r e = ground arith

abbrev pub shared : Root → ℕ → Handle
shared r id = record { ptr = r.ptr; root = some id }

abbrev pub counted_up : Store → ℕ → Root → Store
counted_up s id r = record s {
  roots = put s.roots id (some (record r { ref_count = r.ref_count + 1 }));
}

pub share_lem :
    (stale : Option ℕ) (s : Store) (id : ℕ) (r : Root)
    → s.roots id ≡ some r
    → share stale (some id) s ≡ some (shared r id, counted_up s id r)
unfolding share root_ptr add_ref
share_lem stale s id r e = ground arith

module _ {s : Store} {rs : List (Option ℕ)} where
  pub add_ref-Counted :
      (id : ℕ) (r : Root)
      → Counted s rs
      → s.roots id ≡ some r
      → Counted
          (record s { roots = put s.roots id (some (record r { ref_count = r.ref_count + 1 })) })
          (some id ∷ rs)
  add_ref-Counted id r c e = record {
    count = λ k. ground (arith, c.count k);
    unused = λ k h. ground (arith, c.unused k);
  }

  del_ref-Counted :
      (id : ℕ) (r : Root)
      → Counted s (some id ∷ rs)
      → s.roots id ≡ some r
      → Counted (deleted_ref s id r) rs × LastGone (some id) s (deleted_ref s id r).deleted rs
  del_ref-Counted id r c e = (
    record {
      count = λ k. ground (arith, c.count k, c.count id);
      unused = λ k h. ground (arith, c.unused k, c.unused id);
    },
    λ r' e'. ground (arith, c.count id),
  )

  pub del_root-Works :
      (r : Option ℕ)
      → Counted s (r ∷ rs)
      → Works (del_root r s) (λ u s'. Counted s' rs × LastGone r s s'.deleted rs)
  unfolding del_root
  del_root-Works none c = (record { count = c.count; unused = c.unused }, refl)
  del_root-Works (some id) c = elim (Option-cases (s.roots id)) [
    | inl e ↦ absurd (ground (arith, e, c.count id))
    | inr (r, e) ↦
        Works-at _ _ tt (deleted_ref s id r) (del_ref_lem s id r e) (del_ref-Counted id r c e)
  ]

  -- The new owner of a root that has owners.
  pub share-Works :
      (stale r : Option ℕ)
      → Counted s rs
      → ((id : ℕ) → r ≡ some id → 0 < owners id rs)
      → Works
          (share stale r s)
          (λ h s'. Counted s' (r ∷ rs) × (h.root ≡ r) × (s'.deleted ≡ s.deleted))
  unfolding share
  share-Works stale none c up = (record { count = c.count; unused = c.unused }, refl, refl)
  share-Works stale (some id) c up = elim (Option-cases (s.roots id)) [
    | inl e ↦ absurd (ground (arith, e, c.count id, up id refl))
    | inr (r, e) ↦
        Works-at _ _ (shared r id) (counted_up s id r) (share_lem stale s id r e)
          (add_ref-Counted id r c e, refl, refl)
  ]
