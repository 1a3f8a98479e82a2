-- ===== src/Lcd/Init.antt =====
-- `init` brings the controller into 4-bit mode from any state in which it finds it.
use jsntp_lcdd.Prelude.{
  ℕ, ◌/◌, ◌%◌, ◌≤◌, ◌<◌, bit_or, ◌≡◌, refl, ap, ◌∙◌, ◌⊎◌, inl, inr, true, arith, ==_iff,
}
use jsntp_lcdd.I2c.{ok, usleep, set_slave_id}
use jsntp_lcdd.Lcd.Defs.{
  Lcd, wait, lcd_displayon, lcd_entryleft, lcd_functionset, function_flags, expander_write,
  write4bits, send, init_sequence, init_settings, init,
}
use jsntp_lcdd.Lcd.Panel.{
  Chip, Panel, instruct, exec, latch, feed, feed_bytes, feed_msgs, panel, healthy,
}
use jsntp_lcdd.Lcd.Wire.{
  IsLight, IsRegister, Ready, chip, Wrote, Wrote-trans, Synced, write4bits-Wrote, send-Wrote,
}
use jsntp_lcdd.Lcd.Resync.{resync, resync-Synced}

module _ {at : ℕ} {start : Panel} where
  then_wait :
      {c : Chip} {l m : Lcd} (us : ℕ) → Wrote at start c l m → Wrote at start c l (wait us m).1
  unfolding usleep panel
  then_wait us w = record {
    ready = record { here = w.ready.here; light = w.ready.light; low = w.ready.low };
    keeps = record { slave = w.keeps.slave; light = w.keeps.light; cols = w.keeps.cols };
    now = w.now;
  }

  then_control :
      {c : Chip} {l m : Lcd} (v : ℕ)
      → Wrote at start c l m
      → Wrote at start c l (record m { displaycontrol = v })
  then_control v w = record {
    ready = record { here = w.ready.here; light = w.ready.light; low = w.ready.low };
    keeps = record { slave = w.keeps.slave; light = w.keeps.light; cols = w.keeps.cols };
    now = w.now;
  }

  then_mode :
      {c : Chip} {l m : Lcd} (v : ℕ)
      → Wrote at start c l m
      → Wrote at start c l (record m { displaymode = v })
  then_mode v w = record {
    ready = record { here = w.ready.here; light = w.ready.light; low = w.ready.low };
    keeps = record { slave = w.keeps.slave; light = w.keeps.light; cols = w.keeps.cols };
    now = w.now;
  }

  then_write :
      {c : Chip} {l m : Lcd} (w : ℕ)
      → w < 256
      → w / 4 % 2 ≡ 0
      → Wrote at start c l m
      → Wrote at start (latch (w / 16) (w % 2) c) l (write4bits healthy w m).1
  then_write {m = m} w h e p =
      let q = Wrote-trans p (write4bits-Wrote at start w m h e p.ready) in
      record { ready = q.ready; keeps = q.keeps; now = q.now ∙ ap (latch (w / 16) (w % 2)) p.now }

  then_send :
      {c : Chip} {l m : Lcd} (v r : ℕ)
      → v < 256
      → IsRegister r
      → Synced c
      → Wrote at start c l m
      → Wrote at start (exec v r c) l (send healthy v r m).1
  then_send {m = m} v r h e s p =
      let q = Wrote-trans p (send-Wrote v r m h e p.ready (rw p.now s)) in
      record { ready = q.ready; keeps = q.keeps; now = q.now ∙ ap (exec v r) p.now }

  after_wait :
      {m : Lcd} (us : ℕ) (l : Lcd)
      → Wrote at start
          (feed (panel at start (wait us l).1.device.calls) (bit_or 0 l.backlightval)).chip
          (wait us l).1
          m
      → Wrote at start (feed (panel at start l.device.calls) (bit_or 0 l.backlightval)).chip l m
  unfolding usleep panel
  after_wait us l w = record {
    ready = w.ready;
    keeps = record { slave = w.keeps.slave; light = w.keeps.light; cols = w.keeps.cols };
    now = w.now;
  }

  -- The first write lowers the enable line; where it was high, the controller reads a nibble.
  lower :
      (l : Lcd)
      → l.device.slave_addr ≡ at
      → IsLight l.backlightval
      → Wrote at start
          (feed (panel at start l.device.calls) (bit_or 0 l.backlightval)).chip
          l
          (expander_write healthy 0 l).1
  unfolding expander_write panel feed_msgs feed_bytes feed
  lower l h (inl e) = ground (arith, ==_iff l.device.slave_addr at)
  lower l h (inr e) = ground (arith, ==_iff l.device.slave_addr at)

-- The flags that `init` can compute, as a function set for 4-bit mode.
record IsFunction (v : ℕ) : Type 0 where
  byte : v < 256
  set : (0x20 ≤ v) × (v < 0x40)
  four : v / 16 % 2 ≡ 0

flags-IsFunction :
    (lines dotsize : ℕ) → IsFunction (bit_or lcd_functionset (function_flags lines dotsize))
flags-IsFunction lines dotsize = ground arith

Synced-exec : (v : ℕ) (c : Chip) → (v < 0x20) ⊎ IsFunction v → Synced c → Synced (exec v 0 c)
unfolding exec instruct
Synced-exec v c h s = ground arith

-- What the five commands of `init` leave: the display on, blank, and at its first place.
abbrev settle : ℕ → Chip → Chip
settle v c = exec 0x02 0 (exec 0x06 0 (exec 0x01 0 (exec 0x0c 0 (exec v 0 c))))

-- The controller after `init`.
pub record Started (cols : ℕ) (l : Lcd) (c : Chip) : Type 0 where
  pub synced : Synced c
  pub forward : c.increment ≡ true
  pub on : c.shown ≡ true
  pub blank : (a : ℕ) → c.ddram a ≡ b' '
  pub origin : c.address ≡ 0
  pub width : l.num_ofcols ≡ cols

settle-Started :
    (v cols : ℕ) (l : Lcd) (c : Chip)
    → IsFunction v
    → Synced c
    → l.num_ofcols ≡ cols
    → Started cols l (settle v c)
unfolding exec instruct
settle-Started v cols l c f s w = record {
  synced = record { four = ground arith; between = ground arith };
  forward = ground arith;
  on = ground arith;
  blank = λ a. ground arith;
  origin = ground arith;
  width = w;
}

module _ {at : ℕ} {start : Panel} where
  sequence-Wrote :
      (l : Lcd)
      → l.device.slave_addr ≡ at
      → IsLight l.backlightval
      → Wrote at start
          (resync (feed (panel at start l.device.calls) (bit_or 0 l.backlightval)).chip)
          l
          (init_sequence healthy l).1
  unfolding init_sequence
  sequence-Wrote l h b =
      let byte : 0x30 < 256 = omega arith in
      let last : 0x20 < 256 = omega arith in
      let up = then_wait 1000 (after_wait 50 l (lower (wait 50 l).1 h b)) in
      let one = then_wait 4500 (then_write 0x30 byte refl up) in
      let two = then_wait 4500 (then_write 0x30 byte refl one) in
      let three = then_wait 150 (then_write 0x30 byte refl two) in then_write 0x20 last refl three

  settings-Wrote :
      {c : Chip} (l m : Lcd)
      → IsFunction (bit_or lcd_functionset m.displayfunction)
      → Synced c
      → Wrote at start c l m
      → Wrote at start
          (settle (bit_or lcd_functionset m.displayfunction) c)
          l
          (init_settings healthy m).1
  unfolding init_settings
  settings-Wrote {c} l m f s w =
      let v = bit_or lcd_functionset m.displayfunction in
      let c1 = exec v 0 c in
      let s1 = Synced-exec v c (inr f) s in
      let w1 = then_send v 0 f.byte (inl refl) s w in
      let c2 = exec 0x0c 0 c1 in
      let s2 = Synced-exec 0x0c c1 (inl (omega arith)) s1 in
      let w2 = then_send 0x0c 0 (omega arith) (inl refl) s1 (then_control lcd_displayon w1) in
      let c3 = exec 0x01 0 c2 in
      let s3 = Synced-exec 0x01 c2 (inl (omega arith)) s2 in
      let w3 = then_wait 2000 (then_send 0x01 0 (omega arith) (inl refl) s2 w2) in
      let s4 = Synced-exec 0x06 c3 (inl (omega arith)) s3 in
      let w4 = then_send 0x06 0 (omega arith) (inl refl) s3 (then_mode lcd_entryleft w3) in
      then_wait 2000 (then_send 0x02 0 (omega arith) (inl refl) s4 w4)

-- On a bus that carries every transfer and with the backlight bit 0 or 8, init returns 1 and
-- leaves the controller in 4-bit mode, on, blank and at its first place, whatever state it was
-- in.
pub init-Started :
    (start : Panel) (l : Lcd) (at cols lines dotsize : ℕ)
    → IsLight l.backlightval
    → let (r, l') = init healthy at cols lines dotsize l in
      (r ≡ ok) × Ready at start l' × Started cols l' (chip at start l')
unfolding init panel
init-Started start l at cols lines dotsize b =
    let m : Lcd = record l {
      displayfunction = function_flags lines dotsize;
      num_ofcols = cols;
      num_oflines = lines;
      device = (set_slave_id healthy at l.device).1;
    } in
    let seq = sequence-Wrote {at = at} {start = start} m refl b in
    let f = flags-IsFunction lines dotsize in
    let c = resync (feed (panel at start m.device.calls) (bit_or 0 l.backlightval)).chip in
    let s = resync-Synced (feed (panel at start m.device.calls) (bit_or 0 l.backlightval)).chip in
    let w = settings-Wrote m (init_sequence healthy m).1 f s seq in
    let v = bit_or lcd_functionset (function_flags lines dotsize) in
    (refl, w.ready, rw w.now (settle-Started v cols _ c f s w.keeps.cols))
