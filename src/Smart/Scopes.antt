-- ===== src/Smart/Scopes.antt =====
-- The end of a scope in both classes, and what is left of a step.
use jsntp_lcdd.Smart.Runs.{◌>>◌, first_step, return}
use jsntp_lcdd.Prelude.{
  ℕ, suc, ◌-◌, ◌<◌, ◌≤◌, ◌≡◌, refl, sym, ap, ◌∙◌, subst, false, Option, none, some, List, ◌∷◌, ◌==◌,
  ==_iff, arith, Bool-cases, inl, inr, get_elem?,
}
use jsntp_lcdd.Smart.Defs.{Root, Store, Handle}
use jsntp_lcdd.Smart.Defs
use jsntp_lcdd.Smart.Nts
use jsntp_lcdd.Smart.Nts.{
  Object, Heap, place, empty, make, copy, assign, assign_ptr, drop, detach, attach,
}
use jsntp_lcdd.Smart.Counting.{owners, Counted}
use jsntp_lcdd.Smart.View.{roots_of}
use jsntp_lcdd.Smart.Refinement.{HandleAt}
use jsntp_lcdd.Smart.Beginnings.{given}
use jsntp_lcdd.Smart.Endings.{drop-refines, left}
use jsntp_lcdd.Smart.Clients.{with_handle}
use jsntp_lcdd.Smart.Clients.Counts.{roots}
use jsntp_lcdd.Smart.Effects.{drop-Ends}
use jsntp_lcdd.Smart.Kept.{Same, Same-Respects, puts-Same, drop-gone}
use jsntp_lcdd.Smart.Objects.{addr, Agrees, Ends-at, at_most, handle_at}

pub left-some :
    (m : Option (Unit {0} × Heap)) (s : Store)
    → left m ≡ some (tt, s)
    → (h : Heap) × (m ≡ some (tt, h)) × (roots_of h ≡ s)
left-some none s e = cc
left-some (some (u, h)) s e = (h, refl, cc)

pub given-some :
    (m : Option (Option ℕ × Heap)) (q : Option ℕ) (s : Store)
    → given m ≡ some (q, s)
    → (h : Heap) × (m ≡ some (q, h)) × (roots_of h ≡ s)
given-some none q s e = cc
given-some (some (r, h)) q s e = (h, cc, cc)

-- The end of a scope.
pub dropped :
    (most n : ℕ) (x : Handle) (hs : List Handle) (s s' : Store) (h : Heap)
    → Agrees most n (x ∷ hs) s h
    → Counted s (roots (x ∷ hs))
    → Defs.drop x s ≡ some (tt, s')
    → (h' : Heap) × (drop (n - 1) h ≡ some (tt, h')) × Agrees most (n - 1) hs s' h'
dropped most n x hs s s' h g c e =
    let (a, p, same) = handle_at most n 0 (x ∷ hs) s h x g c refl in
    let first : addr n 0 ≡ n - 1 = omega arith in
    let q : HandleAt h (n - 1) a = subst (λ (k : ℕ). HandleAt h k a) first p in
    let (h', ran, stored) = left-some (drop (n - 1) h) s' (
      drop-refines h (n - 1) a q
      ∙ ap (λ (y : Handle). Defs.drop y (roots_of h)) same
      ∙ ap (Defs.drop x) g.stored
      ∙ e) in
    let kept : (k : ℕ) → (n - 1 == k) ≡ false → Same k h h' = λ k apart.
      Ends-at (Same k) h h' (drop (n - 1) h) tt ran (
        drop-Ends (Same k) (Same-Respects k) (n - 1) (λ z f t. puts-Same k (n - 1) apart (some z) t)
          h a q.here q.no_root (λ t. puts-Same k (n - 1) apart none t)) in
    (
      h',
      ran,
      record {
        many = omega (arith, g.many);
        room = omega (arith, g.room);
        above = omega (arith, g.above, (kept n (ground (arith, g.many, ==_iff (n - 1) n))).grows);
        stored = stored;
        handle = λ j y f.
            let (b, at, flat, view_b) = g.handle (suc j) y f in
            let low : suc j < n = omega (arith, at_most hs j y f, g.many) in
            (
              b,
              ap h'.objects (omega arith)
                  ∙ (kept (addr n (suc j))
                        (ground (arith, low, ==_iff (n - 1) (addr n (suc j))))).object
                      b (omega (arith, low, g.room, g.above)) at flat,
              flat,
              view_b,
            );
        free = λ k low high. elim (Bool-cases (n - 1 == k)) [
          | inl t ↦
              ap h'.objects (sym ((==_iff (n - 1) k).0 t))
              ∙ drop-gone (n - 1) h h' a q.here q.no_root ran
          | inr t ↦
              (kept k t).free (omega (arith, high, g.above))
                (g.free k (ground (arith, low, ==_iff (n - 1) k)) high)
        ];
      },
    )

abbrev pub Result : (most k : ℕ) → List Handle → Store → Option (ℕ × Heap) → Type 0
Result most k hs s r = (h : Heap) × (r ≡ some (k, h)) × Agrees most k hs s h

pub finish :
    (most k : ℕ) (hs hs' : List Handle) (s : Store) (h : Heap) (m : Nts.M (Unit {0}))
    → hs' ≡ hs
    → (h' : Heap) × (m h ≡ some (tt, h')) × Agrees most k hs s h'
    → Result most k hs' s ((m >> return k) h)
finish most k hs hs' s h m e (h', ran, g) = (
  h',
  first_step m (λ _. return k) h tt h' ran,
  subst (λ (l : List Handle). Agrees most k l s h') (sym e) g,
)

pub put-some :
    {A : Type 0} (o : Option (A × Store)) (f : A → List Handle) (hs' : List Handle) (s' : Store)
    → elim o as (λ _. Option (List Handle × Store)) [ none ↦ none | some (x, t) ↦ some (f x, t) ]
      ≡ some (hs', s')
    → (x : A) × (o ≡ some (x, s')) × (hs' ≡ f x)
put-some none f hs' s' e = cc
put-some (some (x, t)) f hs' s' e = (x, cc, cc)

pub with_handle-at :
    (hs : List Handle) (i : ℕ) (x : Handle) (f : Handle → Defs.M (List Handle)) (s : Store)
    → get_elem? hs i ≡ some x
    → with_handle hs i f s ≡ f x s
with_handle-at hs i x f s e = rw (e, with_handle) refl

pub more_owners : (q : Option ℕ) (id : ℕ) (rs : List (Option ℕ)) → owners id rs ≤ owners id (q ∷ rs)
more_owners none id rs = omega arith
more_owners (some r) id rs = ground arith

pub first_owner :
    (q : Option ℕ) (id : ℕ) (rs : List (Option ℕ)) → q ≡ some id → 0 < owners id (q ∷ rs)
first_owner none id rs e = cc
first_owner (some r) id rs e = ground (arith, ==_iff r id)
