-- ===== src/Lcd/Light.antt =====
-- The backlight bit on any bus: only `backlight` changes it.
use jsntp_lcdd.Prelude.{ℕ, zero, suc, ◌≡◌, refl, ◌∙◌, List, [], ◌∷◌, bit_or, bit_and, ◌*◌, ◌%◌}
use jsntp_lcdd.I2c
use jsntp_lcdd.I2c.{Status, ok, fail, Call, Request, Answer, usleep}
use jsntp_lcdd.Lcd.Defs.{
  Lcd, M, ◌>>◌, if_ok, wait, expander_write, pulse_enable, write4bits, send, command, putchar,
  clear, home, display, init_sequence, init_settings, init, gotoxy, pad, fill, puts_newline, en,
  on_device, lcd_cleardisplay, lcd_displaycontrol, lcd_functionset, lcd_entrymodeset, lcd_entryleft,
  lcd_displayon,
}

abbrev pub Steady : {A : Type 0} → M A → Type 0
Steady m = (l : Lcd) → (m l).1.backlightval ≡ l.backlightval

if_ok-after :
    (r : Status) (next : M Status) (l : Lcd)
    → Steady next
    → (if_ok (λ _. (r, l)) next l).1.backlightval ≡ l.backlightval
if_ok-after ok next l n = n l
if_ok-after (fail e) next l n = refl

if_ok-Steady : (first next : M Status) → Steady first → Steady next → Steady (if_ok first next)
if_ok-Steady first next f n l = if_ok-after (first l).0 next (first l).1 n ∙ f l

module _ (kernel : List Call → Request → Answer) where
  expander_write-Steady : (v : ℕ) → Steady (expander_write kernel v)
  unfolding expander_write
  expander_write-Steady v l = refl

  pulse_enable-Steady : (v : ℕ) → Steady (pulse_enable kernel v)
  unfolding pulse_enable usleep
  pulse_enable-Steady v =
      let low : M Status =
        if_ok (expander_write kernel (bit_and v 0xfb)) (λ m. (ok, (wait 50 m).1)) in
      if_ok-Steady (expander_write kernel (bit_or v en)) (λ l. low (wait 1 l).1)
        (expander_write-Steady (bit_or v en))
        (λ l.
          if_ok-Steady (expander_write kernel (bit_and v 0xfb)) (λ m. (ok, (wait 50 m).1))
            (expander_write-Steady (bit_and v 0xfb)) (λ m. refl) (wait 1 l).1)

  write4bits-Steady : (v : ℕ) → Steady (write4bits kernel v)
  unfolding write4bits
  write4bits-Steady v =
      if_ok-Steady (expander_write kernel v) (pulse_enable kernel v) (expander_write-Steady v)
        (pulse_enable-Steady v)

  send-Steady : (v mode : ℕ) → Steady (send kernel v mode)
  unfolding send
  send-Steady v mode =
      let high : ℕ = bit_or (bit_and v 0xf0) mode in
      let low : ℕ = bit_or (bit_and (v * 16 % 256) 0xf0) mode in
      if_ok-Steady (write4bits kernel high) (write4bits kernel low) (write4bits-Steady high)
        (write4bits-Steady low)

  command-Steady : (v : ℕ) → Steady (command kernel v)
  unfolding command
  command-Steady v = send-Steady v 0

  putchar-Steady : (c : ℕ) → Steady (putchar kernel c)
  unfolding putchar
  putchar-Steady c = send-Steady c 1

  init_sequence-Steady : Steady (init_sequence kernel)
  unfolding init_sequence usleep
  init_sequence-Steady l =
      write4bits-Steady 0x20 _
      ∙ write4bits-Steady 0x30 _
      ∙ write4bits-Steady 0x30 _
      ∙ write4bits-Steady 0x30 _
      ∙ expander_write-Steady 0 (wait 50 l).1

  home-Steady : Steady (home kernel)
  unfolding home usleep
  home-Steady =
      if_ok-Steady (command kernel 2) (λ l. (ok, (wait 2000 l).1)) (command-Steady 2) (λ l. refl)

  clear-Steady : Steady (clear kernel)
  unfolding clear usleep
  clear-Steady l = command-Steady lcd_cleardisplay l

  display-Steady : Steady (display kernel)
  unfolding display
  display-Steady l = command-Steady (bit_or lcd_displaycontrol l.displaycontrol) l

  init_settings-Steady : Steady (init_settings kernel)
  unfolding init_settings
  init_settings-Steady l =
      let function : ℕ = bit_or lcd_functionset l.displayfunction in
      let entry : ℕ = bit_or lcd_entrymodeset lcd_entryleft in
      let l1 : Lcd = (command kernel function l).1 in
      let l2 : Lcd = record l1 { displaycontrol = lcd_displayon } in
      let l3 : Lcd = (display kernel l2).1 in
      let l4 : Lcd = record (clear kernel l3).1 { displaymode = lcd_entryleft } in
      home-Steady (command kernel entry l4).1
      ∙ command-Steady entry l4
      ∙ clear-Steady l3
      ∙ display-Steady l2
      ∙ command-Steady function l

  pub init-Steady : (addr cols lines dotsize : ℕ) → Steady (init kernel addr cols lines dotsize)
  unfolding init
  init-Steady addr cols lines dotsize l =
      if_ok-Steady (on_device (I2c.set_slave_id kernel addr))
        (init_sequence kernel >> init_settings kernel) (λ m. refl)
        (λ m. init_settings-Steady _ ∙ init_sequence-Steady m) _

  pad-Steady : (room : ℕ) → Steady (pad kernel room)
  unfolding pad
  pad-Steady zero l = refl
  pad-Steady (suc room) l = pad-Steady room _ ∙ putchar-Steady b' ' l

  fill-Steady : (room : ℕ) (text : List ℕ) → Steady (fill kernel room text)
  unfolding fill
  fill-Steady zero text l = refl
  fill-Steady (suc room) [] l = pad-Steady (suc room) l
  fill-Steady (suc room) (c ∷ text) l = fill-Steady room text _ ∙ putchar-Steady c l

  pub puts_newline-Steady :
      (stale y : ℕ) (text : List ℕ) → Steady (puts_newline kernel stale y text)
  unfolding puts_newline gotoxy
  puts_newline-Steady stale y text l = fill-Steady _ text _ ∙ send-Steady _ 0 l
