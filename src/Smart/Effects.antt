-- ===== src/Smart/Effects.antt =====
-- `SmartPointerNTS` as steps of the heap, for any relation that each kind of step respects.
use jsntp_lcdd.Smart.Runs.{◌>>=◌, ◌>>◌, first_step, return}
use jsntp_lcdd.Prelude.{
  ℕ, zero, suc, ◌+◌, ◌-◌, ◌≡◌, refl, sym, subst, true, false, Option, none, some, leb,
  if◌then◌else◌, Option-cases, Bool-cases, inl, inr,
}
use jsntp_lcdd.Smart.Nts
use jsntp_lcdd.Smart.Nts.{
  Object, Heap, place, find, write, add_ref, lowered, del_ref, del_root, new_root, share, take_over,
  empty, make, copy, drop, assign, assign_ptr, attach, detach,
}

-- A relation of heaps that the steps of the operations respect.
pub record Respects (R : Heap → Heap → Type 0) : Type 0 where
  pub same : (h : Heap) → R h h
  pub both : (h t u : Heap) → R h t → R t u → R h u
  pub root :
      (h h' : Heap) (id : ℕ) (q : Object) (x : Option Object)
      → h.objects id ≡ some q
      → q.is_root ≡ true
      → h'.objects ≡ (place id x h).objects
      → h'.fresh ≡ h.fresh
      → R h h'
  pub made :
      (h : Heap) (q : Object) → R h (record (place h.fresh (some q) h) { fresh = suc h.fresh })

abbrev pub Ends : {A : Type 0} → (Heap → Heap → Type 0) → Heap → Option (A × Heap) → Type 0
Ends R h none = Unit {0}
Ends R h (some (a, h')) = R h h'

module _ (R : Heap → Heap → Type 0) (r : Respects R) where
  pub bind-Ends :
      {A B : Type 0} (h : Heap) (m : Option (A × Heap)) (f : A → Nts.M B)
      → Ends R h m
      → ((a : A) (t : Heap) → Ends R t (f a t))
      → Ends R h (elim m [ none ↦ none | some (a, t) ↦ f a t ])
  bind-Ends h none f w k = tt
  bind-Ends {A} {B} h (some (a, t)) f w k = onwards (f a t) (k a t)
    where
      onwards : (m : Option (B × Heap)) → Ends R t m → Ends R h m
      onwards none v = tt
      onwards (some (b, u)) v = r.both h t u w v

  pub ended :
      {A : Type 0} (h t : Heap) (m : Option (A × Heap)) (a : A)
      → m ≡ some (a, t)
      → R h t
      → Ends R h m
  ended h t m a e w = subst (λ x. Ends R h x) (sym e) w

  pub find-Ends : (id : ℕ) (h : Heap) → Ends R h (find id h)
  find-Ends id h = elim (Option-cases (h.objects id)) [
    | inl e ↦ rw (e, Ends, find) tt
    | inr (o, e) ↦ rw (e, Ends, find) (r.same h)
  ]

  pub del_ref-Ends : (d id : ℕ) (h : Heap) → Ends R h (del_ref d id h)
  unfolding del_ref
  del_ref-Ends zero id h = tt
  del_ref-Ends (suc d) id h = elim (Option-cases (h.objects id)) [
    | inl e ↦ rw (e, Ends, del_ref) tt
    | inr (o, e) ↦ elim (Bool-cases o.is_root) [
      | inl t ↦ elim (Bool-cases (leb o.ref_count 1)) [
        | inl low ↦
            ended h (lowered id o h) (del_ref (suc d) id h) tt (rw (e, t, del_ref) refl)
              (r.root h (lowered id o h) id o none e t (rw low refl) (rw low refl))
        | inr high ↦ ended h (lowered id o h) (del_ref (suc d) id h) tt (rw (e, t, del_ref) refl) (
            r.root h (lowered id o h) id o (some (record o { ref_count = o.ref_count - 1 })) e t
              (rw high refl) (rw high refl))
      ]
      | inr f ↦ elim (Option-cases o.root) [
        | inl z ↦ ended h h (del_ref (suc d) id h) tt (rw (e, f, z, del_ref) refl) (r.same h)
        | inr (q, z) ↦
            let up : del_ref (suc d) id h ≡ del_ref d q h = rw (e, f, z, del_ref) refl in
            subst (λ x. Ends R h x) (sym up) (del_ref-Ends d q h)
      ]
    ]
  ]

  pub add_ref-Ends : (d id : ℕ) (h : Heap) → Ends R h (add_ref d id h)
  unfolding add_ref
  add_ref-Ends zero id h = tt
  add_ref-Ends (suc d) id h = elim (Option-cases (h.objects id)) [
    | inl e ↦ rw (e, Ends, add_ref) tt
    | inr (o, e) ↦ elim (Bool-cases o.is_root) [
      | inl t ↦
          let q : Object = record o { ref_count = o.ref_count + 1 } in
          ended h (place id (some q) h) (add_ref (suc d) id h) tt (rw (e, t, add_ref) refl)
            (r.root h (place id (some q) h) id o (some q) e t refl refl)
      | inr f ↦ elim (Option-cases o.root) [
        | inl z ↦
            let lost : add_ref (suc d) id h ≡ none = rw (e, f, z, add_ref) refl in
            subst (λ x. Ends R h x) (sym lost) tt
        | inr (q, z) ↦
            let up : add_ref (suc d) id h ≡ add_ref d q h = rw (e, f, z, add_ref) refl in
            subst (λ x. Ends R h x) (sym up) (add_ref-Ends d q h)
      ]
    ]
  ]

  pub del_root-Ends : (o : Option ℕ) (h : Heap) → Ends R h (del_root o h)
  unfolding del_root
  del_root-Ends none h = r.same h
  del_root-Ends (some id) h = del_ref-Ends 2 id h

  pub new_root-Ends : (p : Option ℕ) (h : Heap) → Ends R h (new_root p h)
  unfolding new_root
  new_root-Ends p h = r.made h (record { is_root = true; ptr = p; root = none; ref_count = 0 })

-- The operations on the handle at `this`.
module _ (R : Heap → Heap → Type 0) (r : Respects R) (this : ℕ)
    (puts : (x : Object) → x.is_root ≡ false → (h : Heap) → R h (place this (some x) h)) where
  pub share-Ends :
      (a : Object) (q : Option ℕ) (h : Heap) → a.is_root ≡ false → Ends R h (share this a q h)
  unfolding share
  share-Ends a none h n = puts (record a { root = none }) n h
  share-Ends a (some id) h n =
      bind-Ends R r h (find id h)
        (λ p. write this (record a { root = some id; ptr = p.ptr }) >> add_ref 2 id)
        (find-Ends R r id h)
        (λ p t.
          bind-Ends R r t (write this (record a { root = some id; ptr = p.ptr }) t)
            (λ _. add_ref 2 id) (puts (record a { root = some id; ptr = p.ptr }) n t)
            (λ _ u. add_ref-Ends R r 2 id u))

  pub take_over-Ends :
      (a : Object) (q : Option ℕ) (h : Heap) → a.is_root ≡ false → Ends R h (take_over this a q h)
  unfolding take_over
  take_over-Ends a none h n = puts (record a { root = none }) n h
  take_over-Ends a (some id) h n =
      bind-Ends R r h (find id h) (λ q. write this (record a { root = some id; ptr = q.ptr }))
        (find-Ends R r id h) (λ q t. puts (record a { root = some id; ptr = q.ptr }) n t)

  pub make-Ends : (p : Option ℕ) (h : Heap) → Ends R h (make this p h)
  unfolding make
  make-Ends p h =
      bind-Ends R r h (write this empty h) (λ _. new_root p >>= λ q. share this empty (some q))
        (puts empty refl h)
        (λ _ t.
          bind-Ends R r t (new_root p t) (λ q. share this empty (some q)) (new_root-Ends R r p t)
            (λ q u. share-Ends empty (some q) u refl))

  pub copy-Ends : (other : ℕ) (h : Heap) → Ends R h (copy this other h)
  unfolding copy
  copy-Ends other h =
      bind-Ends R r h (find other h) (λ q. write this empty >> share this empty q.root)
        (find-Ends R r other h)
        (λ q t.
          bind-Ends R r t (write this empty t) (λ _. share this empty q.root) (puts empty refl t)
            (λ _ u. share-Ends empty q.root u refl))

  -- Behind `find this`, with the object that is there.
  at_this :
      {B : Type 0} (h : Heap) (a : Object) (f : Object → Nts.M B)
      → h.objects this ≡ some a
      → Ends R h (f a h)
      → Ends R h ((find this >>= f) h)
  at_this h a f e w =
      subst (λ x. Ends R h x) (sym (first_step (find this) f h a h (rw (e, find) refl))) w

  module _ (h : Heap) (a : Object) (here : h.objects this ≡ some a) (n : a.is_root ≡ false) where
    pub assign-Ends : (other : ℕ) → Ends R h (assign this other h)
    unfolding assign
    assign-Ends other =
        at_this h a (λ o. del_root o.root >> (find other >>= λ q. share this o q.root)) here
          (bind-Ends R r h (del_root a.root h) (λ _. find other >>= λ q. share this a q.root)
            (del_root-Ends R r a.root h)
            (λ _ t.
              bind-Ends R r t (find other t) (λ q. share this a q.root) (find-Ends R r other t)
                (λ q u. share-Ends a q.root u n)))

    pub assign_ptr-Ends : (p : Option ℕ) → Ends R h (assign_ptr this p h)
    unfolding assign_ptr
    assign_ptr-Ends p =
        at_this h a (λ o. del_root o.root >> (new_root p >>= λ q. share this o (some q))) here
          (bind-Ends R r h (del_root a.root h) (λ _. new_root p >>= λ q. share this a (some q))
            (del_root-Ends R r a.root h)
            (λ _ t.
              bind-Ends R r t (new_root p t) (λ q. share this a (some q)) (new_root-Ends R r p t)
                (λ q u. share-Ends a (some q) u n)))

    pub attach-Ends : (q : Option ℕ) → Ends R h (attach this q h)
    unfolding attach
    attach-Ends q =
        at_this h a (λ o. del_root o.root >> take_over this o q) here
          (bind-Ends R r h (del_root a.root h) (λ _. take_over this a q)
            (del_root-Ends R r a.root h) (λ _ t. take_over-Ends a q t n))

    pub drop-Ends : ((t : Heap) → R t (place this none t)) → Ends R h (drop this h)
    unfolding drop
    drop-Ends clears =
        at_this h a
          (λ o.
            (if o.is_root then return tt else del_ref 2 this)
            >> (λ t. some (tt, place this none t)))
          here
          (rw n (
            bind-Ends R r h (del_ref 2 this h) (λ _ t. some (tt, place this none t))
              (del_ref-Ends R r 2 this h) (λ _ t. clears t)))

pub detach-Ends :
    (R : Heap → Heap → Type 0) (r : Respects R) (id : ℕ) (h : Heap) → Ends R h (detach id h)
unfolding detach
detach-Ends R r id h =
    bind-Ends R r h (find id h)
      (λ o. elim o.root [ none ↦ return none | some q ↦ add_ref 2 q >> return (some q) ])
      (find-Ends R r id h) (λ o t. counts o.root t)
  where
    counts :
        (q : Option ℕ) (t : Heap)
        → Ends R t (
            elim q as (λ _. Nts.M (Option ℕ)) [
              | none ↦ return none
              | some x ↦ add_ref 2 x >> return (some x)
            ]
              t)
    counts none t = r.same t
    counts (some x) t =
        bind-Ends R r t (add_ref 2 x t) (λ _. return (some x)) (add_ref-Ends R r 2 x t)
          (λ _ u. r.same u)
