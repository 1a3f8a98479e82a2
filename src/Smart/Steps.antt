-- ===== src/Smart/Steps.antt =====
-- What one step of a thread on a root keeps.
use jsntp_lcdd.Prelude.{
  ℕ, ◌+◌, ◌≤◌, ◌<◌, ◌≡◌, ◌⊎◌, refl, Bool, true, false, none, some, List, [], ◌∷◌, if◌then◌else◌,
  ◌==◌, ==_iff, arith, length, inl, inr,
}
use jsntp_lcdd.Locks.Defs.{Lockable, acquire}
use jsntp_lcdd.Smart.Threads.{
  smart_pointer, Pc, idle, calling, entered, loaded, leaving, Root, share_of, without, Move, hand,
  call, enter, load, store_more, store_less, delete_root, leave, System,
}

share_of-length : (i : ℕ) (js : List ℕ) → share_of i js ≤ length js
share_of-length i [] = omega arith
share_of-length i (j ∷ js) = ground (arith, share_of-length i js)

length-without : (i : ℕ) (js : List ℕ) → 0 < share_of i js → length (without i js) + 1 ≡ length js
length-without i [] h = omega arith
length-without i (j ∷ js) h = ground (arith, length-without i js)

share_of-without :
    (i k : ℕ) (js : List ℕ) → (i == k) ≡ false → share_of k (without i js) ≡ share_of k js
share_of-without i k [] h = refl
share_of-without i k (j ∷ js) h =
    ground (arith, share_of-without i k js, ==_iff j i, ==_iff j k, ==_iff i k)

-- Between the lock and its return.
abbrev pub inside : Pc → Bool
inside idle = false
inside (calling op) = false
inside (entered op) = true
inside (loaded op v) = true
inside leaving = true

-- In a call that needs a handle.
abbrev pub needs : Pc → Bool
needs idle = false
needs (calling op) = true
needs (entered op) = true
needs (loaded op v) = true
needs leaving = false

abbrev pub IsKnown : Root → Pc → Type 0
IsKnown r (loaded op v) = v ≡ r.ref_count
IsKnown r _ = Unit {0}

same-IsKnown :
    (r : Root) (owners : List ℕ) (q : Pc) → IsKnown r q → IsKnown (record r { owners = owners }) q
same-IsKnown r owners idle k = k
same-IsKnown r owners (calling op) k = k
same-IsKnown r owners (entered op) k = k
same-IsKnown r owners (loaded op v) k = k
same-IsKnown r owners leaving k = k

-- What holds of a thread.
pub record Agrees (r : Root) (i : ℕ) (p : Pc) : Type 0 where
  pub owns : inside p ≡ true → r.lock.owner ≡ some i
  pub alive : inside p ≡ true → r.deletions ≡ 0
  pub handle : needs p ≡ true → 0 < share_of i r.owners
  pub known : IsKnown r p

-- What holds of the root.
pub record Sound (r : Root) : Type 0 where
  pub count : r.ref_count ≡ length r.owners
  pub deleted : r.deletions ≡ (if length r.owners == 0 then 1 else 0)

pub record Inv (s : System) : Type 0 where
  pub root : Sound s.root
  pub threads : (i : ℕ) → Agrees s.root i (s.pc i)

pub Move-Sound :
    {i : ℕ} {r r' : Root} {p p' : Pc}
    → Move smart_pointer i r p r' p'
    → Sound r
    → Agrees r i p
    → Sound r'
Move-Sound {i} {r} (hand to h) w a = record {
  count = omega (arith, w.count, length-without i r.owners h);
  deleted = ground (arith, w.deleted, length-without i r.owners h);
}
Move-Sound (call op h) w a = w
Move-Sound (enter h) w a = record { count = w.count; deleted = w.deleted }
Move-Sound load w a = w
Move-Sound store_more w a = record {
  count = ground (arith, a.known, w.count);
  deleted = ground (arith, a.alive);
}
Move-Sound {i} {r} (store_less h) w a = record {
  count = ground (arith, a.known, w.count, a.handle, length-without i r.owners);
  deleted = ground (arith, a.known, w.count, a.alive, a.handle, length-without i r.owners);
}
Move-Sound {i} {r} (delete_root h) w a = record {
  count = ground (arith, a.known, w.count, a.handle, length-without i r.owners);
  deleted = ground (arith, a.known, w.count, a.alive, a.handle, length-without i r.owners);
}
Move-Sound leave w a = record { count = w.count; deleted = w.deleted }

-- A thread with a handle finds the root not deleted.
pub handle_alive : (i : ℕ) (r : Root) → Sound r → 0 < share_of i r.owners → r.deletions ≡ 0
handle_alive i r w h = ground (arith, w.deleted, share_of-length i r.owners)

pub Move-Agrees :
    {i : ℕ} {r r' : Root} {p p' : Pc}
    → Move smart_pointer i r p r' p'
    → Sound r
    → Agrees r i p
    → Agrees r' i p'
unfolding acquire
Move-Agrees (hand to h) w a = ground arith
Move-Agrees (call op h) w a = ground arith
Move-Agrees {i} {r} (enter h) w a = ground (arith, handle_alive i r w, a.handle)
Move-Agrees load w a = ground (arith, a.owns, a.alive, a.handle)
Move-Agrees store_more w a = ground (arith, a.owns, a.alive)
Move-Agrees (store_less h) w a = ground (arith, a.owns, a.alive)
Move-Agrees (delete_root h) w a = ground arith
Move-Agrees leave w a = ground arith

-- Where the lock is not a thread's, the thread is outside.
is_outside :
    (r : Root) (i j : ℕ) (q : Pc)
    → (r.lock.owner ≡ none) ⊎ (r.lock.owner ≡ some i)
    → (i == j) ≡ false
    → Agrees r j q
    → inside q ≡ false
is_outside r i j q o apart b = ground (arith, b.owns, ==_iff i j)

outsider-Agrees :
    (r r' : Root) (j : ℕ) (q : Pc)
    → inside q ≡ false
    → share_of j r.owners ≤ share_of j r'.owners
    → Agrees r j q
    → Agrees r' j q
outsider-Agrees r r' j idle out h b = ground arith
outsider-Agrees r r' j (calling op) out h b = ground (arith, b.handle)
outsider-Agrees r r' j (entered op) out h b = absurd (cc)
outsider-Agrees r r' j (loaded op v) out h b = absurd (cc)
outsider-Agrees r r' j leaving out h b = absurd (cc)

more-Agrees :
    (r : Root) (owners : List ℕ) (j : ℕ) (q : Pc)
    → share_of j r.owners ≤ share_of j owners
    → Agrees r j q
    → Agrees (record r { owners = owners }) j q
more-Agrees r owners j q h b = record {
  owns = b.owns;
  alive = b.alive;
  handle = λ e. omega (arith, b.handle e);
  known = same-IsKnown r owners q b.known;
}

free_before : (i : ℕ) (l l' : Lockable) → acquire i l ≡ some l' → l.owner ≡ none
unfolding acquire
free_before i l l' h = ground arith

-- What the step of a thread leaves of another one.
pub Move-others :
    {i : ℕ} {r r' : Root} {p p' : Pc} (j : ℕ) (q : Pc)
    → (i == j) ≡ false
    → Move smart_pointer i r p r' p'
    → Agrees r i p
    → Agrees r j q
    → Agrees r' j q
Move-others {i} {r} j q apart (hand to h) a b =
    more-Agrees r (to ∷ without i r.owners) j q (omega (arith, share_of-without i j r.owners apart))
      b
Move-others j q apart (call op h) a b = b
Move-others {i} {r} j q apart (enter {l = l} h) a b =
    let out = is_outside r i j q (inl (free_before i r.lock l h)) apart b in
    outsider-Agrees r (record r { lock = l }) j q out (omega arith) b
Move-others j q apart load a b = b
Move-others {i} {r} j q apart (store_more {v = v}) a b =
    let out = is_outside r i j q (inr (a.owns refl)) apart b in
    outsider-Agrees r (record r { ref_count = v + 1; owners = i ∷ r.owners }) j q out (omega arith)
      b
Move-others {i} {r} {r' = r'} j q apart (store_less h) a b =
    let out = is_outside r i j q (inr (a.owns refl)) apart b in
    outsider-Agrees r r' j q out (omega (arith, share_of-without i j r.owners apart)) b
Move-others {i} {r} {r' = r'} j q apart (delete_root h) a b =
    let out = is_outside r i j q (inr (a.owns refl)) apart b in
    outsider-Agrees r r' j q out (omega (arith, share_of-without i j r.owners apart)) b
Move-others {i} {r} {r' = r'} j q apart leave a b =
    let out = is_outside r i j q (inr (a.owns refl)) apart b in
    outsider-Agrees r r' j q out (omega arith) b
