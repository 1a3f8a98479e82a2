-- ===== src/Smart/Clients.antt =====
-- Programs over `SmartPointer`: any sequence of its operations on the handles of a stack of scopes.
pub mod Counts
pub mod Objects
pub mod Steps
pub mod Ends
pub mod Whole
mod Tests
use jsntp_lcdd.Smart.Runs.{◌>>=◌, ◌>>◌, return}
use jsntp_lcdd.Prelude.{
  ℕ, zero, suc, ◌+◌, ◌-◌, ◌<◌, ◌≡◌, Bool, true, false, Option, none, some, List, [], ◌∷◌,
  if◌then◌else◌, ◌==◌, get_elem?,
}
use jsntp_lcdd.Smart.Defs.{
  Root, Store, Handle, M, make, copy, assign, assign_ptr, drop, detach, attach,
}

-- The handles are numbered from the one that was declared last.
pub data Op : Type 0 where
  declare : (p : Option ℕ) → Op
  declare_copy : (i : ℕ) → Op
  assigns : (i j : ℕ) → Op
  assigns_ptr : (i : ℕ) (p : Option ℕ) → Op
  transfer : (i j : ℕ) → Op  -- `hj.attach(hi.detach())`
  leave : Op  -- the scope of the last handle ends

abbrev pub set_at : List Handle → ℕ → Handle → List Handle
set_at [] i h = []
set_at (x ∷ hs) zero h = h ∷ hs
set_at (x ∷ hs) (suc i) h = x ∷ set_at hs i h

-- With the handle of that number; `none` if there is none.
abbrev pub with_handle : List Handle → ℕ → (Handle → M (List Handle)) → M (List Handle)
with_handle hs i f s = elim (get_elem? hs i) [ none ↦ none | some h ↦ f h s ]

abbrev pub put_at : List Handle → ℕ → M Handle → M (List Handle)
put_at hs i m = m >>= λ h. return (set_at hs i h)

abbrev pub copied : List Handle → Handle → M (List Handle)
copied hs h = copy h >>= λ h'. return (h' ∷ hs)

abbrev pub assigned : List Handle → ℕ → Handle → Handle → M (List Handle)
assigned hs i h g = put_at hs i (assign h g)

abbrev pub assigned_ptr : List Handle → ℕ → Option ℕ → Handle → M (List Handle)
assigned_ptr hs i p h = put_at hs i (assign_ptr h p)

abbrev pub transferred : List Handle → ℕ → Handle → Handle → M (List Handle)
transferred hs j h g = put_at hs j (detach h >>= attach g)

unfoldable pub step : Op → List Handle → M (List Handle)
unfolding make copy assign assign_ptr drop detach attach
step (declare p) hs s = (make p >>= λ h. return (h ∷ hs)) s
step (declare_copy i) hs s = with_handle hs i (copied hs) s
step (assigns i j) hs s = with_handle hs i (λ h. with_handle hs j (assigned hs i h)) s
step (assigns_ptr i p) hs s = with_handle hs i (assigned_ptr hs i p) s
step (transfer i j) hs s = with_handle hs i (λ h. with_handle hs j (transferred hs j h)) s
step leave [] s = none
step leave (h ∷ hs) s = (drop h >> return hs) s

unfoldable pub run : List Op → List Handle → M (List Handle)
unfolding step
run [] hs = return hs
run (op ∷ ops) hs = step op hs >>= run ops

-- A store with nothing in it, whose first root gets a number.
abbrev pub store_from : ℕ → Store
store_from first = record { roots = λ _. none; fresh = first; deleted = [] }

abbrev pub new_store : Store
new_store = store_from 0

-- An operation where there are `n` handles: it names handles that are there, and assigns or
-- transfers none to itself.
abbrev pub IsPlain : ℕ → Op → Type 0
IsPlain n (declare p) = Unit {0}
IsPlain n (declare_copy i) = i < n
IsPlain n (assigns i j) = (i < n) × (j < n) × ((i == j) ≡ false)
IsPlain n (assigns_ptr i p) = i < n
IsPlain n (transfer i j) = (i < n) × (j < n) × ((i == j) ≡ false)
IsPlain n leave = 0 < n

-- How many handles there are behind it.
abbrev pub width : ℕ → Op → ℕ
width n (declare p) = suc n
width n (declare_copy i) = suc n
width n leave = n - 1
width n (assigns i j) = n
width n (assigns_ptr i p) = n
width n (transfer i j) = n

abbrev pub ArePlain : ℕ → List Op → Type 0
ArePlain n [] = Unit {0}
ArePlain n (op ∷ ops) = IsPlain n op × ArePlain (width n op) ops

abbrev pub widths : ℕ → List Op → ℕ
widths n [] = n
widths n (op ∷ ops) = widths (width n op) ops

-- How often a program hands over an object.
abbrev pub is_object : ℕ → Option ℕ → ℕ
is_object p none = 0
is_object p (some q) = if q == p then 1 else 0

abbrev pub hands : ℕ → Op → ℕ
hands p (declare q) = is_object p q
hands p (assigns_ptr i q) = is_object p q
hands p _ = 0

abbrev pub handed : ℕ → List Op → ℕ
handed p [] = 0
handed p (op ∷ ops) = hands p op + handed p ops
