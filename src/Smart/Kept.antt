-- ===== src/Smart/Kept.antt =====
-- What the operations of `SmartPointerNTS` leave alone: the objects below `fresh` that are no roots.
use jsntp_lcdd.Smart.Runs.{◌>>◌, first_step}
use jsntp_lcdd.Prelude.{
  ℕ, ◌<◌, ◌≤◌, ◌≡◌, refl, sym, ap, ◌∙◌, subst, false, Option, none, some, ◌==◌, ==_iff, arith,
  Bool-cases, inl, inr,
}
use jsntp_lcdd.Smart.Nts.{
  Object, Heap, place, find, write, del_ref, new_root, share, empty, make, copy, drop,
}
use jsntp_lcdd.Smart.Effects.{Respects, Ends, bind-Ends, new_root-Ends, share-Ends}

-- Another heap in which the object at an address is as before, or at least is no root.
pub record Same (k : ℕ) (h h' : Heap) : Type 0 where
  pub grows : h.fresh ≤ h'.fresh
  pub object :
      (o : Object) → k < h.fresh → h.objects k ≡ some o → o.is_root ≡ false → h'.objects k ≡ some o
  pub free : k < h.fresh → h.objects k ≡ none → h'.objects k ≡ none

pub record Plain (k : ℕ) (h h' : Heap) : Type 0 where
  pub grows : h.fresh ≤ h'.fresh
  pub object :
      (o : Object)
      → k < h.fresh
      → h.objects k ≡ some o
      → o.is_root ≡ false
      → (o' : Object) × (h'.objects k ≡ some o') × (o'.is_root ≡ false)

pub Same-Respects : (k : ℕ) → Respects (Same k)
Same-Respects k = record {
  same = λ h. record { grows = omega arith; object = λ o l e n. e; free = λ l e. e };
  both = λ h t u a b. record {
    grows = omega (arith, a.grows, b.grows);
    object = λ o l e n. b.object o (omega (arith, l, a.grows)) (a.object o l e n) n;
    free = λ l e. b.free (omega (arith, l, a.grows)) (a.free l e);
  };
  root = λ h h' id q x e t objects fresh. record {
    grows = omega (arith, fresh);
    object = λ o l f n. rw objects (elim (Bool-cases (id == k)) [
      | inl same ↦ absurd (ground (arith, ap h.objects ((==_iff id k).0 same)))
      | inr apart ↦ rw apart f
    ]);
    free = λ l f. rw objects (elim (Bool-cases (id == k)) [
      | inl same ↦ absurd (ground (arith, ap h.objects ((==_iff id k).0 same)))
      | inr apart ↦ rw apart f
    ]);
  };
  made = λ h q. record {
    grows = omega arith;
    object = λ o l f n. ground (arith, ==_iff h.fresh k);
    free = λ l f. ground (arith, ==_iff h.fresh k);
  };
}

pub Plain-Respects : (k : ℕ) → Respects (Plain k)
Plain-Respects k = record {
  same = λ h. record { grows = omega arith; object = λ o l e n. (o, e, n) };
  both = λ h t u a b. record {
    grows = omega (arith, a.grows, b.grows);
    object =
        λ o l e n. let (x, f, m) = a.object o l e n in b.object x (omega (arith, l, a.grows)) f m;
  };
  root = λ h h' id q x e t objects fresh. record {
    grows = omega (arith, fresh);
    object = λ o l f n. (
      o,
      rw objects (elim (Bool-cases (id == k)) [
        | inl same ↦ absurd (ground (arith, ap h.objects ((==_iff id k).0 same)))
        | inr apart ↦ rw apart f
      ]),
      n,
    );
  };
  made = λ h q. record {
    grows = omega arith;
    object = λ o l f n. (o, ground (arith, ==_iff h.fresh k), n);
  };
}

pub puts-Same :
    (k this : ℕ) → (this == k) ≡ false → (x : Option Object) (h : Heap) → Same k h (place this x h)
puts-Same k this apart x h = record {
  grows = omega arith;
  object = λ o l e n. rw apart e;
  free = λ l e. rw apart e;
}

pub puts-Plain :
    (k this : ℕ) (x : Object) → x.is_root ≡ false → (h : Heap) → Plain k h (place this (some x) h)
puts-Plain k this x n h = record {
  grows = omega arith;
  object = λ o l e m. elim (Bool-cases (this == k)) [
    | inl same ↦ (x, rw same refl, n)
    | inr apart ↦ (o, rw apart e, m)
  ];
}

-- A new handle, from its first write on.
pub made-Plain :
    (this : ℕ) (p : Option ℕ) (h : Heap)
    → Ends (Plain this) (place this (some empty) h) (make this p h)
unfolding make
made-Plain this p h =
    let t : Heap = place this (some empty) h in
    bind-Ends (Plain this) (Plain-Respects this) t (new_root p t) (λ q. share this empty (some q))
      (new_root-Ends (Plain this) (Plain-Respects this) p t)
      (λ q u.
        share-Ends (Plain this) (Plain-Respects this) this (λ x n v. puts-Plain this this x n v)
          empty (some q) u refl)

pub copied-Plain :
    (this other : ℕ) (q : Object) (h : Heap)
    → h.objects other ≡ some q
    → Ends (Plain this) (place this (some empty) h) (copy this other h)
unfolding copy
copied-Plain this other q h e =
    let run : copy this other h ≡ share this empty q.root (place this (some empty) h) =
      first_step (find other) (λ o. write this empty >> share this empty o.root) h q h
        (rw (e, find) refl) in
    subst (λ x. Ends (Plain this) (place this (some empty) h) x) (sym run)
      (share-Ends (Plain this) (Plain-Respects this) this (λ x n v. puts-Plain this this x n v)
        empty q.root (place this (some empty) h) refl)

-- Behind the destructor the object is gone.
pub drop-gone :
    (this : ℕ) (h t : Heap) (a : Object)
    → h.objects this ≡ some a
    → a.is_root ≡ false
    → drop this h ≡ some (tt, t)
    → t.objects this ≡ none
unfolding drop
drop-gone this h t a e n d =
    let first : drop this h ≡ (del_ref 2 this >> (λ u. some (tt, place this none u))) h =
      ground (arith, e, n) in
    gone (del_ref 2 this h) (sym first ∙ d)
  where
    gone :
        (m : Option (Unit {0} × Heap))
        → (elim m as (λ _. Option (Unit {0} × Heap)) [
          | none ↦ none
          | some (a, u) ↦ some (tt, place this none u)
        ])
          ≡ some (tt, t)
        → t.objects this ≡ none
    gone none f = cc
    gone (some (a, u)) f = ground (arith, ==_iff this this)
