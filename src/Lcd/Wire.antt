-- ===== src/Lcd/Wire.antt =====
-- What the panel receives when the bus carries every transfer.
use jsntp_lcdd.Prelude.{
  ℕ, ◌*◌, ◌/◌, ◌%◌, ◌<◌, bit_and, bit_or, ◌≡◌, refl, ◌∙◌, ◌⊎◌, inl, inr, Bool, true, false, ◌&&◌,
  none, arith, ◌==◌, ==_iff,
}
use jsntp_lcdd.Prelude.Bits.{passes, passes-at}
use jsntp_lcdd.I2c.{ok}
use jsntp_lcdd.Lcd.Defs.{Lcd, write4bits, send}
use jsntp_lcdd.Lcd.Panel.{
  Chip, Panel, enabled, latch, feed, feed_bytes, feed_msgs, panel, exec, healthy,
}

-- Bytes on the expander, for each setting of the backlight bit.
abbrev pub IsLight : ℕ → Type 0
IsLight b = (b ≡ 0) ⊎ (b ≡ 8)

abbrev nibble_test : ℕ → ℕ → Bool
nibble_test b w =
    let up : ℕ = bit_or (bit_or w 4) b in
    (up / 16 == w / 16)
    && (up % 2 == w % 2)
    && (up / 4 % 2 == 1)
    && (bit_or (bit_and w 0xfb) b / 4 % 2 == 0)
    && (bit_or w b / 4 % 2 == w / 4 % 2)

nibble_table : (passes (nibble_test 0) 256 ≡ true) × (passes (nibble_test 8) 256 ≡ true)
unfolding passes
nibble_table = (refl, refl)

record Nibble (b w : ℕ) : Type 0 where
  high : bit_or (bit_or w 4) b / 16 ≡ w / 16
  register : bit_or (bit_or w 4) b % 2 ≡ w % 2
  raised : bit_or (bit_or w 4) b / 4 % 2 ≡ 1
  lowered : bit_or (bit_and w 0xfb) b / 4 % 2 ≡ 0
  same : bit_or w b / 4 % 2 ≡ w / 4 % 2

nibble_of_test : (b w : ℕ) → nibble_test b w ≡ true → Nibble b w
nibble_of_test b w h = ground arith

nibble : (b w : ℕ) → IsLight b → w < 256 → Nibble b w
nibble b w (inl e) h = nibble_of_test b w (rw e (passes-at (nibble_test 0) 256 nibble_table.0 w h))
nibble b w (inr e) h = nibble_of_test b w (rw e (passes-at (nibble_test 8) 256 nibble_table.1 w h))

abbrev half_test : ℕ → ℕ → ℕ → Bool
half_test m n w = (w / 16 == n) && (w % 2 == m) && (w / 4 % 2 == 0) && (w / 256 == 0)

-- A nibble with the register bit below it.
record Half (m n w : ℕ) : Type 0 where
  value : w / 16 ≡ n
  mode : w % 2 ≡ m
  low : w / 4 % 2 ≡ 0
  byte : w < 256

Half-of_test : (m n w : ℕ) → half_test m n w ≡ true → Half m n w
Half-of_test m n w h = ground arith

abbrev high_test : ℕ → ℕ → Bool
high_test m v = half_test m (v / 16) (bit_or (bit_and v 0xf0) m)

abbrev low_test : ℕ → ℕ → Bool
low_test m v = half_test m (v % 16) (bit_or (bit_and (v * 16 % 256) 0xf0) m)

half_tables :
    (passes (high_test 0) 256 ≡ true)
    × (passes (high_test 1) 256 ≡ true)
    × (passes (low_test 0) 256 ≡ true)
    × (passes (low_test 1) 256 ≡ true)
unfolding passes
half_tables = (refl, refl, refl, refl)

abbrev pub IsRegister : ℕ → Type 0
IsRegister m = (m ≡ 0) ⊎ (m ≡ 1)

high-Half : (m v : ℕ) → IsRegister m → v < 256 → Half m (v / 16) (bit_or (bit_and v 0xf0) m)
high-Half m v (inl e) h = Half-of_test m _ _ (rw e (passes-at (high_test 0) 256 half_tables.0 v h))
high-Half m v (inr e) h = Half-of_test m _ _ (rw e (passes-at (high_test 1) 256 half_tables.1 v h))

low-Half :
    (m v : ℕ) → IsRegister m → v < 256 → Half m (v % 16) (bit_or (bit_and (v * 16 % 256) 0xf0) m)
low-Half m v (inl e) h = Half-of_test m _ _ (rw e (passes-at (low_test 0) 256 half_tables.2 v h))
low-Half m v (inr e) h = Half-of_test m _ _ (rw e (passes-at (low_test 1) 256 half_tables.3 v h))

-- What the object remembers is as it was, but for the log of calls.
pub record Keeps (l l' : Lcd) : Type 0 where
  pub slave : l'.device.slave_addr ≡ l.device.slave_addr
  pub light : l'.backlightval ≡ l.backlightval
  pub cols : l'.num_ofcols ≡ l.num_ofcols

pub Keeps-refl : {l : Lcd} → Keeps l l
Keeps-refl = record { slave = refl; light = refl; cols = refl }

Keeps-trans : {a b c : Lcd} → Keeps a b → Keeps b c → Keeps a c
Keeps-trans p q = record {
  slave = q.slave ∙ p.slave;
  light = q.light ∙ p.light;
  cols = q.cols ∙ p.cols;
}

module _ (at : ℕ) (start : Panel) where
  pub record Ready (l : Lcd) : Type 0 where
    pub here : l.device.slave_addr ≡ at
    pub light : IsLight l.backlightval
    pub low : enabled (panel at start l.device.calls).lines ≡ false

  abbrev pub chip : Lcd → Chip
  chip l = (panel at start l.device.calls).chip

  pub record Wrote (c : Chip) (l l' : Lcd) : Type 0 where
    pub ready : Ready l'
    pub keeps : Keeps l l'
    pub now : chip l' ≡ c

  pub write4bits-Wrote :
      (w : ℕ) (l : Lcd)
      → w < 256
      → w / 4 % 2 ≡ 0
      → Ready l
      → Wrote (latch (w / 16) (w % 2) (chip l)) l (write4bits healthy w l).1
  unfolding write4bits panel feed_msgs feed_bytes feed
  write4bits-Wrote w l hw he r =
      ground (arith, nibble l.backlightval w r.light hw, ==_iff l.device.slave_addr at)

  pub write4bits-ok : (w : ℕ) (l : Lcd) → (write4bits healthy w l).0 ≡ ok
  unfolding write4bits
  write4bits-ok w l = refl

module _ {at : ℕ} {start : Panel} where
  pub Wrote-trans :
      {c d : Chip} {l m n : Lcd}
      → Wrote at start c l m
      → Wrote at start d m n
      → Wrote at start d l n
  Wrote-trans p q = record { ready = q.ready; keeps = Keeps-trans p.keeps q.keeps; now = q.now }

-- The controller is in 4-bit mode and between two bytes.
pub record Synced (c : Chip) : Type 0 where
  pub four : c.four_bit ≡ true
  pub between : c.pending ≡ none

latch_twice : (v m : ℕ) (c : Chip) → Synced c → latch (v % 16) m (latch (v / 16) m c) ≡ exec v m c
unfolding latch
latch_twice v m c s = ground (arith)

module _ {at : ℕ} {start : Panel} where
  -- One call of `send` is one byte for the controller, in the register that `mode` names.
  pub send-Wrote :
      (v m : ℕ) (l : Lcd)
      → v < 256
      → IsRegister m
      → Ready at start l
      → Synced (chip at start l)
      → Wrote at start (exec v m (chip at start l)) l (send healthy v m l).1
  unfolding send
  send-Wrote v m l hv hm r s =
      let hi = high-Half m v hm hv in
      let lo = low-Half m v hm hv in
      let first = write4bits-Wrote at start _ l hi.byte hi.low r in
      let second = write4bits-Wrote at start _ _ lo.byte lo.low first.ready in
      let both = Wrote-trans first second in
      record {
        ready = both.ready;
        keeps = both.keeps;
        now = both.now ∙ rw (first.now, hi.value, hi.mode, lo.value, lo.mode) (latch_twice v m _ s);
      }
