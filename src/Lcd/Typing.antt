-- ===== src/Lcd/Typing.antt =====
-- The memory of the controller while a line of text is typed into it.
use jsntp_lcdd.Prelude.{
  ℕ, zero, suc, ◌+◌, ◌-◌, ◌≤◌, ◌<◌, ◌≡◌, refl, ap, ◌∙◌, ◌⊎◌, inr, true, List, [], ◌∷◌, arith, ◌==◌,
  if◌then◌else◌, length, get_or, leb, ltb, ◌&&◌,
}
use jsntp_lcdd.Lcd.Defs.{Lcd, putchar, pad, fill}
use jsntp_lcdd.Lcd.Panel.{Chip, Panel, write_data, exec, healthy}
use jsntp_lcdd.Lcd.Wire.{Ready, chip, Wrote, Wrote-trans, Synced, send-Wrote, Keeps-refl}

abbrev pub IsBytes : List ℕ → Type 0
IsBytes [] = Unit {0}
IsBytes (c ∷ cs) = (c < 256) × IsBytes cs

-- A text cut or padded with spaces to a number of columns.
abbrev pub padded : ℕ → List ℕ → List ℕ
padded zero text = []
padded (suc n) [] = b' ' ∷ padded n []
padded (suc n) (c ∷ text) = c ∷ padded n text

abbrev pub type_all : List ℕ → Chip → Chip
type_all [] c = c
type_all (x ∷ xs) c = type_all xs (write_data x c)

Synced-write_data : (x : ℕ) (c : Chip) → Synced c → Synced (write_data x c)
unfolding write_data
Synced-write_data x c s = record { four = s.four; between = s.between }

module _ {at : ℕ} {start : Panel} where
  putchar-Wrote :
      (x : ℕ) (l : Lcd)
      → x < 256
      → Ready at start l
      → Synced (chip at start l)
      → Wrote at start (write_data x (chip at start l)) l (putchar healthy x l).1
  unfolding putchar exec
  putchar-Wrote x l h r s = send-Wrote x 1 l h (inr refl) r s

  -- One character, and then the rest of the line.
  pub type_on :
      (xs : List ℕ) {c : Chip} {l m n : Lcd}
      → Wrote at start c l m
      → Wrote at start (type_all xs (chip at start m)) m n
      → Wrote at start (type_all xs c) l n
  type_on xs first rest =
      let both = Wrote-trans first rest in
      record { ready = both.ready; keeps = both.keeps; now = both.now ∙ ap (type_all xs) first.now }

  pad-Wrote :
      (room : ℕ) (l : Lcd)
      → Ready at start l
      → Synced (chip at start l)
      → Wrote at start (type_all (padded room []) (chip at start l)) l (pad healthy room l).1
  unfolding pad
  pad-Wrote zero l r s = record { ready = r; keeps = Keeps-refl; now = refl }
  pad-Wrote (suc room) l r s =
      let first = putchar-Wrote b' ' l (omega arith) r s in
      type_on (padded room []) first
        (pad-Wrote room _ first.ready (rw first.now (Synced-write_data b' ' _ s)))

  pub fill-Wrote :
      (room : ℕ) (text : List ℕ) (l : Lcd)
      → IsBytes text
      → Ready at start l
      → Synced (chip at start l)
      → Wrote at start
          (type_all (padded room text) (chip at start l))
          l
          (fill healthy room text l).1
  unfolding fill
  fill-Wrote zero text l b r s = record { ready = r; keeps = Keeps-refl; now = refl }
  fill-Wrote (suc room) [] l b r s = pad-Wrote (suc room) l r s
  fill-Wrote (suc room) (x ∷ text) l b r s =
      let first = putchar-Wrote x l b.0 r s in
      type_on (padded room text) first
        (fill-Wrote room text _ b.1 first.ready (rw first.now (Synced-write_data x _ s)))

-- Where a line of 20 characters lies in the memory of the controller.
abbrev pub InLine : ℕ → ℕ → Type 0
InLine from a = (from ≤ a) × (a < from + 20)

-- A run of characters that stays on one of the two lines of the controller.
abbrev pub Fits : ℕ → ℕ → Type 0
Fits from n = (from + n ≤ 0x28) ⊎ ((0x40 ≤ from) × (from + n ≤ 0x68))

length-padded : (n : ℕ) (text : List ℕ) → length (padded n text) ≡ n
length-padded zero text = refl
length-padded (suc n) [] = ap suc (length-padded n [])
length-padded (suc n) (c ∷ text) = ap suc (length-padded n text)

get_or-padded :
    (n : ℕ) (text : List ℕ) (x : ℕ) → x < n → get_or (padded n text) x 0 ≡ get_or text x b' '
get_or-padded zero text x h = absurd (omega arith)
get_or-padded (suc n) [] zero h = refl
get_or-padded (suc n) [] (suc x) h = get_or-padded n [] x (omega arith)
get_or-padded (suc n) (c ∷ text) zero h = refl
get_or-padded (suc n) (c ∷ text) (suc x) h = get_or-padded n text x (omega arith)

pred-suc : (n : ℕ) → suc n - 1 ≡ n
pred-suc n = omega arith

get_or-cons :
    (x : ℕ) (xs : List ℕ) (n : ℕ)
    → get_or (x ∷ xs) n 0 ≡ (if n == 0 then x else get_or xs (n - 1) 0)
get_or-cons x xs zero = refl
get_or-cons x xs (suc n) = ground (arith, ap (λ (k : ℕ). get_or xs k 0) (pred-suc n))

-- The memory after a run: the characters at their places, and nothing else.
type_all-ddram :
    (xs : List ℕ) (c : Chip) (a : ℕ)
    → c.increment ≡ true
    → Fits c.address (length xs)
    → (type_all xs c).ddram a ≡ (
        if leb c.address a && ltb a (c.address + length xs)
        then get_or xs (a - c.address) 0
        else c.ddram a)
unfolding write_data
type_all-ddram [] c a i f = ground arith
type_all-ddram (x ∷ []) c a i f = ground (arith, get_or-cons x [] (a - c.address))
type_all-ddram (x ∷ y ∷ xs) c a i f =
    let k : a - c.address - 1 ≡ a - (c.address + 1) = omega arith in
    ground (
      arith,
      ap (λ (k : ℕ). get_or (y ∷ xs) k 0) k,
      get_or-cons x (y ∷ xs) (a - c.address),
      type_all-ddram (y ∷ xs) (write_data x c) a i,
    )

pub type_all-Synced :
    (xs : List ℕ) (c : Chip)
    → c.increment ≡ true
    → Synced c
    → Synced (type_all xs c) × ((type_all xs c).increment ≡ true)
unfolding write_data
type_all-Synced [] c i s = (s, i)
type_all-Synced (x ∷ xs) c i s =
    type_all-Synced xs _ i (record { four = s.four; between = s.between })

pub type_all-shown : (xs : List ℕ) (c : Chip) → (type_all xs c).shown ≡ c.shown
unfolding write_data
type_all-shown [] c = refl
type_all-shown (x ∷ xs) c = type_all-shown xs (write_data x c)

module _ (row : ℕ) (text : List ℕ) (c : Chip) (i : c.increment ≡ true) (f : Fits row 20) where
  abbrev pub line : Chip
  line = type_all (padded 20 text) (record c { address = row })

  fits : Fits row (length (padded 20 text))
  fits = rw (length-padded 20 text) f

  pub line-inside : (x : ℕ) → x < 20 → line.ddram (row + x) ≡ get_or text x b' '
  line-inside x h =
      let at_x : row + x - row ≡ x = omega arith in
      ground (
        arith,
        type_all-ddram (padded 20 text) (record c { address = row }) (row + x) i fits,
        length-padded 20 text,
        ap (λ (k : ℕ). get_or (padded 20 text) k 0) at_x,
        get_or-padded 20 text x h,
      )

  pub line-outside : (a : ℕ) → ¬ InLine row a → line.ddram a ≡ c.ddram a
  line-outside a h = ground (
    arith,
    type_all-ddram (padded 20 text) (record c { address = row }) a i fits,
    length-padded 20 text,
  )
