-- ===== src/Smart/Programs.antt =====
-- The steps of a program in both classes.
use jsntp_lcdd.Smart.Runs.{◌>>=◌, first_step}
use jsntp_lcdd.Prelude.{
  ℕ, suc, ◌<◌, ◌≤◌, ◌≡◌, sym, ap, ◌∙◌, subst, false, Option, none, some, List, ◌∷◌, ◌==◌, ==_iff,
  arith, Bool-cases, inl, inr, get_elem?,
}
use jsntp_lcdd.Smart.Defs.{Root, Store, Handle}
use jsntp_lcdd.Smart.Defs
use jsntp_lcdd.Smart.Nts.{Heap, make, copy, assign, assign_ptr, detach, attach}
use jsntp_lcdd.Smart.Counting.{owners, Counted}
use jsntp_lcdd.Smart.View.{root_at, roots_of, view}
use jsntp_lcdd.Smart.Refinement.{HandleAt, assign-refines}
use jsntp_lcdd.Smart.Assignments.{attach-refines, assign_ptr-refines}
use jsntp_lcdd.Smart.Beginnings.{make-refines, copy-refines, detach-refines}
use jsntp_lcdd.Smart.Clients.{
  step, with_handle, put_at, copied, assigned, assigned_ptr, transferred, declare, declare_copy,
  assigns, assigns_ptr, transfer, set_at,
}
use jsntp_lcdd.Smart.Clients.Counts.{roots, owner, there}
use jsntp_lcdd.Smart.Effects.{
  make-Ends, copy-Ends, assign-Ends, assign_ptr-Ends, attach-Ends, detach-Ends,
}
use jsntp_lcdd.Smart.Kept.{
  Same, Plain, Same-Respects, Plain-Respects, puts-Same, puts-Plain, made-Plain, copied-Plain,
}
use jsntp_lcdd.Smart.Objects.{
  perform, Works-some, addr, Agrees, Ends-at, owned-AtRoot, at_most, handle_at,
}
use jsntp_lcdd.Smart.Transfer.{count_root-Works}
use jsntp_lcdd.Smart.Simulation.{changed, begun}
use jsntp_lcdd.Smart.Scopes.{
  given-some, Result, finish, put-some, with_handle-at, more_owners, first_owner,
}

module _ (most n : ℕ) (hs : List Handle) (s : Store) (h : Heap) (g : Agrees most n hs s h)
    (c : Counted s (roots hs)) where
  pub declared :
      (p : Option ℕ) (hs' : List Handle) (s' : Store)
      → suc n ≤ most
      → step (declare p) hs s ≡ some (hs', s')
      → Result most (suc n) hs' s' (perform n (declare p) h)
  unfolding step perform
  declared p hs' s' room e =
      let (x, ran, shape) = put-some (Defs.make p s) (λ y. y ∷ hs) hs' s' e in
      let free : h.objects n ≡ none = g.free n (omega arith) (omega (arith, room)) in
      finish most (suc n) (x ∷ hs) hs' s' h (make n p) shape (
        begun most n hs s h g room (make n p h) x s'
          (λ k apart.
            make-Ends (Same k) (Same-Respects k) n (λ z f t. puts-Same k n apart (some z) t) p h)
          (made-Plain n p h)
          (make-refines h n free p (ground (arith, g.above, room, ==_iff h.fresh n))
            ∙ ap (Defs.make p) g.stored
            ∙ ran))

  pub assigned_to :
      (i j : ℕ) (hs' : List Handle) (s' : Store)
      → i < n
      → j < n
      → step (assigns i j) hs s ≡ some (hs', s')
      → Result most n hs' s' (perform n (assigns i j) h)
  unfolding step perform
  assigned_to i j hs' s' low low' e =
      let (x, ei) = there hs i (omega (arith, low, g.many)) in
      let (y, ej) = there hs j (omega (arith, low', g.many)) in
      let (a, p, va) = handle_at most n i hs s h x g c ei in
      let (b, q, vb) = handle_at most n j hs s h y g c ej in
      let went : put_at hs i (Defs.assign x y) s ≡ some (hs', s') =
        sym (
          with_handle-at hs i x (λ z. with_handle hs j (assigned hs i z)) s ei
          ∙ with_handle-at hs j y (assigned hs i x) s ej)
        ∙ e in
      let (x', ran, shape) = put-some (Defs.assign x y s) (set_at hs i) hs' s' went in
      finish most n (set_at hs i x') hs' s' h (assign (addr n i) (addr n j)) shape (
        changed most n i hs s h x g ei (assign (addr n i) (addr n j) h) x' s'
          (λ k apart.
            assign-Ends (Same k) (Same-Respects k) (addr n i)
              (λ z f t. puts-Same k (addr n i) apart (some z) t) h a p.here p.no_root (addr n j))
          (assign-Ends (Plain (addr n i)) (Plain-Respects (addr n i)) (addr n i)
            (λ z f t. puts-Plain (addr n i) (addr n i) z f t) h a p.here p.no_root (addr n j))
          (assign-refines h (addr n i) (addr n j) a b p q
            ∙ ap (λ (z : Handle). Defs.assign z (view b) (roots_of h)) va
            ∙ ap (λ (z : Handle). Defs.assign x z (roots_of h)) vb
            ∙ ap (Defs.assign x y) g.stored
            ∙ ran))

  -- The counts as they stand in the heap.
  Counted-roots_of : Counted (roots_of h) (roots hs)
  Counted-roots_of = subst (λ (t : Store). Counted t (roots hs)) (sym g.stored) c

  not_free : (k id : ℕ) → h.objects k ≡ none → 0 < owners id (roots hs) → (k == id) ≡ false
  not_free k id f up = elim (Bool-cases (k == id)) [
    | inl t ↦
        let gone : root_at (h.objects id) ≡ none =
          ap (λ (x : ℕ). root_at (h.objects x)) (sym ((==_iff k id).0 t)) ∙ ap root_at f in
        absurd (ground (arith, gone, Counted-roots_of.count id))
    | inr t ↦ t
  ]

  pub copied_to :
      (i : ℕ) (hs' : List Handle) (s' : Store)
      → i < n
      → suc n ≤ most
      → step (declare_copy i) hs s ≡ some (hs', s')
      → Result most (suc n) hs' s' (perform n (declare_copy i) h)
  unfolding step perform
  copied_to i hs' s' low room e =
      let (x, ei) = there hs i (omega (arith, low, g.many)) in
      let (a, p, va) = handle_at most n i hs s h x g c ei in
      let went : copied hs x s ≡ some (hs', s') =
        sym (with_handle-at hs i x (copied hs) s ei) ∙ e in
      let (x', ran, shape) = put-some (Defs.copy x s) (λ y. y ∷ hs) hs' s' went in
      let free : h.objects n ≡ none = g.free n (omega arith) (omega (arith, room)) in
      finish most (suc n) (x' ∷ hs) hs' s' h (copy n (addr n i)) shape (
        begun most n hs s h g room (copy n (addr n i) h) x' s'
          (λ k apart.
            copy-Ends (Same k) (Same-Respects k) n (λ z f t. puts-Same k n apart (some z) t)
              (addr n i) h)
          (copied-Plain n (addr n i) a h p.here)
          (copy-refines h n free (addr n i) a p (λ id r.
              not_free n id free (owner hs i x id ei (ap (λ (y : Handle). y.root) (sym va) ∙ r)))
            ∙ ap (λ (z : Handle). Defs.copy z (roots_of h)) va
            ∙ ap (Defs.copy x) g.stored
            ∙ ran))

  pub assigned_pointer :
      (i : ℕ) (p : Option ℕ) (hs' : List Handle) (s' : Store)
      → i < n
      → step (assigns_ptr i p) hs s ≡ some (hs', s')
      → Result most n hs' s' (perform n (assigns_ptr i p) h)
  unfolding step perform
  assigned_pointer i p hs' s' low e =
      let (x, ei) = there hs i (omega (arith, low, g.many)) in
      let (a, q, va) = handle_at most n i hs s h x g c ei in
      let went : assigned_ptr hs i p x s ≡ some (hs', s') =
        sym (with_handle-at hs i x (assigned_ptr hs i p) s ei) ∙ e in
      let (x', ran, shape) = put-some (Defs.assign_ptr x p s) (set_at hs i) hs' s' went in
      finish most n (set_at hs i x') hs' s' h (assign_ptr (addr n i) p) shape (
        changed most n i hs s h x g ei (assign_ptr (addr n i) p h) x' s'
          (λ k apart.
            assign_ptr-Ends (Same k) (Same-Respects k) (addr n i)
              (λ z f t. puts-Same k (addr n i) apart (some z) t) h a q.here q.no_root p)
          (assign_ptr-Ends (Plain (addr n i)) (Plain-Respects (addr n i)) (addr n i)
            (λ z f t. puts-Plain (addr n i) (addr n i) z f t) h a q.here q.no_root p)
          (assign_ptr-refines h (addr n i) a p q
              (ground (arith, low, g.room, g.above, ==_iff h.fresh (addr n i)))
            ∙ ap (λ (z : Handle). Defs.assign_ptr z p (roots_of h)) va
            ∙ ap (Defs.assign_ptr x p) g.stored
            ∙ ran))

  -- A call that changes no handle.
  kept-Agrees :
      (s' : Store) (h' : Heap) → ((k : ℕ) → Same k h h') → roots_of h' ≡ s' → Agrees most n hs s' h'
  kept-Agrees s' h' same stored = record {
    many = g.many;
    room = g.room;
    above = omega (arith, g.above, (same 0).grows);
    stored = stored;
    handle = λ j y f.
        let (b, at, flat, view_b) = g.handle j y f in
        (
          b,
          (same (addr n j)).object b (omega (arith, at_most hs j y f, g.many, g.room, g.above)) at
              flat,
          flat,
          view_b,
        );
    free = λ k low high. (same k).free (omega (arith, high, g.above)) (g.free k low high);
  }

  -- Taking over the root that another handle gave.
  attached :
      (j : ℕ) (y y' : Handle) (q : Option ℕ) (s1 s' : Store) (h1 : Heap)
      → get_elem? hs j ≡ some y
      → Agrees most n hs s1 h1
      → Counted s1 (q ∷ roots hs)
      → Defs.attach y q s1 ≡ some (y', s')
      → (h' : Heap) × (attach (addr n j) q h1 ≡ some (tt, h'))
        × Agrees most n (set_at hs j y') s' h'
  attached j y y' q s1 s' h1 ej g1 c1 ran =
      let (b, here, flat, vb) = g1.handle j y ej in
      let there1 : Counted (roots_of h1) (q ∷ roots hs) =
        subst (λ (t : Store). Counted t (q ∷ roots hs)) (sym g1.stored) c1 in
      let p : HandleAt h1 (addr n j) b = record {
        here = here;
        no_root = flat;
        root = λ id r. owned-AtRoot h1 (q ∷ roots hs) id there1 (
            omega (
              arith,
              owner hs j y id ej (ap (λ (z : Handle). z.root) (sym vb) ∙ r),
              more_owners q id (roots hs),
            ));
      } in
      changed most n j hs s1 h1 y g1 ej (attach (addr n j) q h1) y' s'
        (λ k apart.
          attach-Ends (Same k) (Same-Respects k) (addr n j)
            (λ z f t. puts-Same k (addr n j) apart (some z) t) h1 b here flat q)
        (attach-Ends (Plain (addr n j)) (Plain-Respects (addr n j)) (addr n j)
          (λ z f t. puts-Plain (addr n j) (addr n j) z f t) h1 b here flat q)
        (attach-refines h1 (addr n j) b q p
            (λ id r. owned-AtRoot h1 (q ∷ roots hs) id there1 (first_owner q id (roots hs) r))
          ∙ ap (λ (z : Handle). Defs.attach z q (roots_of h1)) vb
          ∙ ap (Defs.attach y q) g1.stored
          ∙ ran)

  pub transferred_to :
      (i j : ℕ) (hs' : List Handle) (s' : Store)
      → i < n
      → j < n
      → step (transfer i j) hs s ≡ some (hs', s')
      → Result most n hs' s' (perform n (transfer i j) h)
  unfolding step perform Defs.detach
  transferred_to i j hs' s' low low' e =
      let (x, ei) = there hs i (omega (arith, low, g.many)) in
      let (y, ej) = there hs j (omega (arith, low', g.many)) in
      let (a, p, va) = handle_at most n i hs s h x g c ei in
      let went : transferred hs j x y s ≡ some (hs', s') =
        sym (
          with_handle-at hs i x (λ z. with_handle hs j (transferred hs j z)) s ei
          ∙ with_handle-at hs j y (transferred hs j x) s ej)
        ∙ e in
      let (y', ran, shape) =
        put-some ((Defs.detach x >>= Defs.attach y) s) (set_at hs j) hs' s' went in
      let (q, s1, det, c1) =
        Works-some (Defs.count_root x.root s) _
          (count_root-Works s (roots hs) x.root c (λ id r. owner hs i x id ei r)) in
      let att : Defs.attach y q s1 ≡ some (y', s') =
        sym (first_step (Defs.detach x) (Defs.attach y) s q s1 det) ∙ ran in
      let (h1, ran1, st1) = given-some (detach (addr n i) h) q s1 (
        detach-refines h (addr n i) a p
        ∙ ap (λ (z : Handle). Defs.detach z (roots_of h)) va
        ∙ ap (Defs.detach x) g.stored
        ∙ det) in
      let g1 =
        kept-Agrees s1 h1
          (λ k.
            Ends-at (Same k) h h1 (detach (addr n i) h) q ran1
              (detach-Ends (Same k) (Same-Respects k) (addr n i) h))
          st1 in
      let (h', ran', g') = attached j y y' q s1 s' h1 ej g1 c1.0 att in
      finish most n (set_at hs j y') hs' s' h (detach (addr n i) >>= attach (addr n j)) shape
        (h', first_step (detach (addr n i)) (attach (addr n j)) h q h1 ran1 ∙ ran', g')
