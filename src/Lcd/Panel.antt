-- ===== src/Lcd/Panel.antt =====
-- The other end of the bus, for the statements: the display controller behind the port expander, as
-- its data sheet describes the part that the program uses. Bits 4 to 7 of the expander carry a
-- nibble, bit 2 is the enable line, bit 0 selects the data register. The controller reads a nibble
-- when the enable line falls.
use jsntp_lcdd.Prelude.{
  ℕ, ◌+◌, ◌-◌, ◌*◌, ◌/◌, ◌%◌, Bool, true, ◌&&◌, not, Option, none, some, List, [], ◌∷◌,
  if◌then◌else◌, leb, ◌==◌,
}
use jsntp_lcdd.I2c.{
  Msg, rdwr, Call, asked, slept, Answer, done, failed, open_bus, close_bus, set_slave,
}

-- The state of the controller. `pending` is the first nibble of a byte sent in two.
pub record Chip : Type 0 where
  pub four_bit : Bool
  pub pending : Option ℕ
  pub address : ℕ
  pub ddram : ℕ → ℕ
  pub shown : Bool
  pub increment : Bool

abbrev pub enabled : ℕ → Bool
enabled byte = byte / 4 % 2 == 1

-- The address counter of a display with two lines of 40 characters.
abbrev pub next_address : ℕ → ℕ
next_address a = if a == 0x27 then 0x40 else if a == 0x67 then 0x00 else a + 1

abbrev pub previous_address : ℕ → ℕ
previous_address a = if a == 0x40 then 0x27 else if a == 0x00 then 0x67 else a - 1

abbrev pub store : (ℕ → ℕ) → ℕ → ℕ → ℕ → ℕ
store ram a v b = if a == b then v else ram b

unfoldable pub write_data : ℕ → Chip → Chip
write_data v c = record c {
  ddram = store c.ddram c.address v;
  address = if c.increment then next_address c.address else previous_address c.address;
}

-- A function set starts anew with whole bytes. Character generator addresses (0x40) and shifts (0x10) are not followed.
unfoldable pub instruct : ℕ → Chip → Chip
instruct v c =
    if leb 0x80 v
    then record c { address = v - 0x80 }
    else if leb 0x40 v
    then c
    else if leb 0x20 v
    then record c { four_bit = not (v / 16 % 2 == 1); pending = none }
    else if leb 0x10 v
    then c
    else if leb 0x08 v
    then record c { shown = v / 4 % 2 == 1 }
    else if leb 0x04 v
    then record c { increment = v / 2 % 2 == 1 }
    else if leb 0x02 v
    then record c { address = 0 }
    else if leb 0x01 v
    then record c { address = 0; ddram = λ _. b' '; increment = true }
    else c

unfoldable pub exec : (value register : ℕ) → Chip → Chip
unfolding write_data instruct
exec value register c = if register == 1 then write_data value c else instruct value c

unfoldable pub latch : (nibble register : ℕ) → Chip → Chip
unfolding exec
latch nibble register c =
    if c.four_bit
    then elim c.pending [
      | none ↦ record c { pending = some nibble }
      | some high ↦ exec (high * 16 + nibble) register (record c { pending = none })
    ]
    else exec (nibble * 16) register c

-- The expander's outputs, and the chip.
pub record Panel : Type 0 where
  pub lines : ℕ
  pub chip : Chip

unfoldable pub feed : Panel → ℕ → Panel
feed p byte = record {
  lines = byte;
  chip =
      if enabled p.lines && not (enabled byte)
      then latch (p.lines / 16) (p.lines % 2) p.chip
      else p.chip;
}

unfoldable pub feed_bytes : List ℕ → Panel → Panel
unfolding feed
feed_bytes [] p = p
feed_bytes (b ∷ bs) p = feed_bytes bs (feed p b)

unfoldable pub feed_msgs : ℕ → List Msg → Panel → Panel
unfolding feed_bytes
feed_msgs at [] p = p
feed_msgs at (m ∷ ms) p = feed_msgs at ms (if m.addr == at then feed_bytes m.buf p else p)

-- The panel at bus address `at`, after the calls that the system carried out.
unfoldable pub panel : (at : ℕ) (start : Panel) → List Call → Panel
unfolding feed_msgs
panel at start [] = start
panel at start (slept us ∷ older) = panel at start older
panel at start (asked (rdwr fd msgs) (done v) ∷ older) = feed_msgs at msgs (panel at start older)
panel at start (asked (rdwr fd msgs) (failed e) ∷ older) = panel at start older
panel at start (asked (open_bus path) a ∷ older) = panel at start older
panel at start (asked (close_bus fd) a ∷ older) = panel at start older
panel at start (asked (set_slave fd addr) a ∷ older) = panel at start older

-- A system that carries out every call.
abbrev pub healthy : List Call → (r : jsntp_lcdd.I2c.Request) → Answer
healthy _ _ = done 0
