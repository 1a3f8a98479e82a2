-- ===== src/Lcd/Resync.antt =====
-- How three nibbles bring the controller into step, whatever state it was in.
use jsntp_lcdd.Prelude.{
  Bool-cases, Option-cases, some, false, ℕ, none, ◌+◌, ◌*◌, ◌≡◌, refl, ◌⊎◌, inl, inr, true, arith,
}
use jsntp_lcdd.Lcd.Panel.{Chip, instruct, exec, latch}
use jsntp_lcdd.Lcd.Wire.{Synced}

-- Three nibbles 3 lead to 8-bit mode from either phase of 4-bit mode, and then 2 to 4-bit mode.
abbrev pub resync : Chip → Chip
resync c = latch 2 0 (latch 3 0 (latch 3 0 (latch 3 0 c)))

-- Where the controller can be between two nibbles.
data Phase (c : Chip) : Type 0 where
  whole : c.four_bit ≡ false → Phase c
  fresh : Synced c → Phase c
  half : (h : ℕ) → c.four_bit ≡ true → c.pending ≡ some h → Phase c

phase : (c : Chip) → Phase c
phase c = elim (Bool-cases c.four_bit) [
  | inl e ↦ elim (Option-cases c.pending) [
    | inl f ↦ fresh (record { four = e; between = f })
    | inr (h, f) ↦ half h e f
  ]
  | inr e ↦ whole e
]

Pending3 : Chip → Type 0
Pending3 c = (c.four_bit ≡ true) × (c.pending ≡ some 3)

latch-whole : (c : Chip) → c.four_bit ≡ false → (latch 3 0 c).four_bit ≡ false
unfolding latch exec instruct
latch-whole c e = rw (e, latch) refl

latch-fresh : (c : Chip) → Synced c → Pending3 (latch 3 0 c)
unfolding latch Pending3
latch-fresh c s = (rw (s.four, s.between, latch) s.four, rw (s.four, s.between, latch) refl)

latch-pending : (c : Chip) → Pending3 c → (latch 3 0 c).four_bit ≡ false
unfolding latch exec instruct Pending3
latch-pending c s = rw (s.0, s.1, latch) refl

instruct-phase :
    (v : ℕ) (c : Chip)
    → c.four_bit ≡ true
    → c.pending ≡ none
    → ((instruct v c).four_bit ≡ false) ⊎ Synced (instruct v c)
unfolding instruct
instruct-phase v c e f = ground arith

-- A nibble in the second place either makes a function set for whole bytes, or ends some other byte.
latch-half :
    (h : ℕ) (c : Chip)
    → c.four_bit ≡ true
    → c.pending ≡ some h
    → ((latch 3 0 c).four_bit ≡ false) ⊎ Synced (latch 3 0 c)
unfolding latch exec
latch-half h c e f =
    rw (e, f, latch) (instruct-phase (h * 16 + 3) (record c { pending = none }) e refl)

-- After three nibbles 3 the controller reads whole bytes.
three-whole : (c : Chip) → (latch 3 0 (latch 3 0 (latch 3 0 c))).four_bit ≡ false
three-whole c = elim (phase c) [
  | whole e ↦ latch-whole _ (latch-whole _ (latch-whole c e))
  | fresh s ↦ latch-whole _ (latch-pending _ (latch-fresh c s))
  | half h e f ↦ elim (latch-half h c e f) [
    | inl e' ↦ latch-whole _ (latch-whole _ e')
    | inr s ↦ latch-pending _ (latch-fresh _ s)
  ]
]

latch-two : (c : Chip) → c.four_bit ≡ false → Synced (latch 2 0 c)
unfolding latch exec instruct
latch-two c e = record { four = rw (e, latch) refl; between = rw (e, latch) refl }

pub resync-Synced : (c : Chip) → Synced (resync c)
resync-Synced c = latch-two _ (three-whole c)
