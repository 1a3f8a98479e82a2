-- ===== src/Smart/Simulation.antt =====
-- Each step of a program does the same over `SmartPointerNTS` as over `SmartPointer`.
use jsntp_lcdd.Prelude.{
  ℕ, zero, suc, ◌<◌, ◌≤◌, ◌≡◌, refl, sym, ap, ◌∙◌, false, Option, some, List, ◌∷◌, ◌==◌, ==_iff,
  arith, Bool-cases, inl, inr, get_elem?,
}
use jsntp_lcdd.Smart.Defs.{Store, Handle}
use jsntp_lcdd.Smart.Nts.{Object, Heap, place, empty}
use jsntp_lcdd.Smart.View.{view, seen}
use jsntp_lcdd.Smart.Clients.{set_at}
use jsntp_lcdd.Smart.Effects.{Ends}
use jsntp_lcdd.Smart.Kept.{Same, Plain}
use jsntp_lcdd.Smart.Objects.{
  addr, Agrees, seen-some, Ends-at, at_most, set_at_self, set_at-ne, length-set_at,
}

some_inj : {A : Type 0} (x y : A) → some x ≡ some y → x ≡ y
some_inj x y e = cc

-- Two handles stand at two addresses.
addr-ne : (n i j : ℕ) → i < n → j < n → (i == j) ≡ false → (addr n i == addr n j) ≡ false
addr-ne n i j a b e = ground (arith, ==_iff i j, ==_iff (addr n i) (addr n j))

-- What a call with the handle `i` leaves, seen from both classes.
module _ (most n i : ℕ) (hs : List Handle) (s : Store) (h : Heap) (x : Handle)
    (g : Agrees most n hs s h) (e : get_elem? hs i ≡ some x) where
  pub changed :
      (m : Option (Unit {0} × Heap)) (x' : Handle) (s' : Store)
      → ((k : ℕ) → (addr n i == k) ≡ false → Ends (Same k) h m)
      → Ends (Plain (addr n i)) h m
      → seen (addr n i) m ≡ some (x', s')
      → (h' : Heap) × (m ≡ some (tt, h')) × Agrees most n (set_at hs i x') s' h'
  changed m x' s' same plain sees =
      let (h', run, a, here, is, stored) = seen-some (addr n i) m x' s' sees in
      let inside : addr n i < h.fresh = omega (arith, at_most hs i x e, g.many, g.room, g.above) in
      let (b, there, flat, _) = g.handle i x e in
      let p = Ends-at (Plain (addr n i)) h h' m tt run plain in
      let (a', here', flat') = p.object b inside there flat in
      (
        h',
        run,
        record {
          many = length-set_at hs i x' ∙ g.many;
          room = g.room;
          above = omega (arith, g.above, p.grows);
          stored = stored;
          handle = λ j y f. elim (Bool-cases (i == j)) [
            | inl t ↦
                let ij : i ≡ j = (==_iff i j).0 t in
                let same_object : a' ≡ a = some_inj a' a (sym here' ∙ here) in
                let same_handle : x' ≡ y =
                  some_inj x' y
                    (sym (set_at_self hs i x x' e) ∙ ap (get_elem? (set_at hs i x')) ij ∙ f) in
                (
                  a',
                  ap (λ (k : ℕ). h'.objects (addr n k)) (sym ij) ∙ here',
                  flat',
                  ap view same_object ∙ is ∙ same_handle,
                )
            | inr t ↦
                let old : get_elem? hs j ≡ some y = sym (set_at-ne hs i j x' t) ∙ f in
                let (c, at, flat_c, same_c) = g.handle j y old in
                let apart : (addr n i == addr n j) ≡ false =
                  addr-ne n i j (omega (arith, at_most hs i x e, g.many))
                    (omega (arith, at_most hs j y old, g.many)) t in
                let k = Ends-at (Same (addr n j)) h h' m tt run (same (addr n j) apart) in
                (
                  c,
                  k.object c (omega (arith, at_most hs j y old, g.many, g.room, g.above)) at flat_c,
                  flat_c,
                  same_c,
                )
          ];
          free = λ k low high.
              let apart : (addr n i == k) ≡ false =
                ground (arith, at_most hs i x e, g.many, ==_iff (addr n i) k) in
              (Ends-at (Same k) h h' m tt run (same k apart)).free (omega (arith, high, g.above))
                (g.free k low high);
        },
      )

-- What a call that begins a handle leaves.
module _ (most n : ℕ) (hs : List Handle) (s : Store) (h : Heap) (g : Agrees most n hs s h)
    (room : suc n ≤ most) where
  pub begun :
      (m : Option (Unit {0} × Heap)) (x' : Handle) (s' : Store)
      → ((k : ℕ) → (n == k) ≡ false → Ends (Same k) h m)
      → Ends (Plain n) (place n (some empty) h) m
      → seen n m ≡ some (x', s')
      → (h' : Heap) × (m ≡ some (tt, h')) × Agrees most (suc n) (x' ∷ hs) s' h'
  begun m x' s' same plain sees =
      let (h', run, a, here, is, stored) = seen-some n m x' s' sees in
      let p = Ends-at (Plain n) (place n (some empty) h) h' m tt run plain in
      let there : (place n (some empty) h).objects n ≡ some empty = ground (arith, ==_iff n n) in
      let (a', here', flat') = p.object empty (omega (arith, room, g.above)) there refl in
      let same_object : a' ≡ a = some_inj a' a (sym here' ∙ here) in
      (
        h',
        run,
        record {
          many = ap suc g.many;
          room = room;
          above = omega (arith, g.above, p.grows);
          stored = stored;
          handle = λ j y f.
              begun_handle h' x' a' j y here' flat' (ap view same_object ∙ is) f
                (λ k apart. Ends-at (Same k) h h' m tt run (same k apart));
          free = λ k low high.
              (Ends-at (Same k) h h' m tt run (same k (ground (arith, ==_iff n k)))).free
                (omega (arith, high, g.above)) (g.free k (omega (arith, low)) high);
        },
      )
    where
      begun_handle :
          (h' : Heap) (x' : Handle) (a' : Object) (j : ℕ) (y : Handle)
          → h'.objects n ≡ some a'
          → a'.is_root ≡ false
          → view a' ≡ x'
          → get_elem? (x' ∷ hs) j ≡ some y
          → ((k : ℕ) → (n == k) ≡ false → Same k h h')
          → (o : Object) × (h'.objects (addr (suc n) j) ≡ some o)
            × (o.is_root ≡ false)
            × (view o ≡ y)
      begun_handle h' x' a' zero y at flat is f same =
          (a', ap h'.objects (omega arith) ∙ at, flat, is ∙ some_inj x' y f)
      begun_handle h' x' a' (suc j) y at flat is f same =
          let (c, old, flat_c, same_c) = g.handle j y f in
          let low : j < n = omega (arith, at_most hs j y f, g.many) in
          (
            c,
            ap h'.objects (omega arith)
                ∙ (same (addr n j) (ground (arith, low, ==_iff n (addr n j)))).object c
                    (omega (arith, low, g.room, g.above)) old flat_c,
            flat_c,
            same_c,
          )
