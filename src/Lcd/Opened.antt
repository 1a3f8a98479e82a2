-- ===== src/Lcd/Opened.antt =====
-- A bus that carries every transfer of an open descriptor and refuses those without one: behind an open
-- descriptor the display is as on a bus that carries everything.
use jsntp_lcdd.Prelude.{
  ℕ, zero, suc, ◌≡◌, ap, refl, ◌∙◌, true, none, some, List, [], ◌∷◌, bit_or, bit_and, ◌*◌, ◌%◌, ◌+◌,
}
use jsntp_lcdd.I2c
use jsntp_lcdd.I2c.{
  Status, ok, fail, Call, Request, open_bus, close_bus, set_slave, rdwr, Answer, done, failed,
  usleep,
}
use jsntp_lcdd.Lcd.Defs.{
  Lcd, M, ◌>>◌, if_ok, wait, expander_write, pulse_enable, write4bits, send, command, putchar,
  clear, home, display, backlight, init_sequence, init_settings, init, gotoxy, pad, fill,
  puts_newline, en, on_device, lcd_cleardisplay, lcd_displaycontrol, lcd_functionset,
  lcd_entrymodeset, lcd_entryleft, lcd_displayon, lcd_backlight, row_address, function_flags,
  lcd_returnhome,
}
use jsntp_lcdd.Lcd.Panel.{healthy}

-- 9 is EBADF.
abbrev pub attached : List Call → Request → Answer
attached _ (open_bus path) = done 0
attached _ (close_bus fd) = done 0
attached _ (set_slave none addr) = failed 9
attached _ (set_slave (some fd) addr) = done 0
attached _ (rdwr none msgs) = failed 9
attached _ (rdwr (some fd) msgs) = done 0

module _ (fd : ℕ) where
  -- The same display, with an open descriptor; and the same results.
  abbrev pub Same : Lcd → Lcd → Type 0
  Same l l' = (l ≡ l') × (l'.device.dev_fd ≡ some fd)

  abbrev pub Both : {A : Type 0} → A × Lcd → A × Lcd → Type 0
  Both x y = (x ≡ y) × (y.1.device.dev_fd ≡ some fd)

  abbrev pub Alike : {A : Type 0} → M A → M A → Type 0
  Alike m n = (l : Lcd) → l.device.dev_fd ≡ some fd → Both (m l) (n l)

  pub then_also :
      {A : Type 0} (m n : M A) → Alike m n → (l l' : Lcd) → Same l l' → Same (m l).1 (n l').1
  then_also {A} m n a l l' (p, o) =
      let (q, o') = a l' o in (ap (λ (x : Lcd). (m x).1) p ∙ ap (λ (x : A × Lcd). x.1) q, o')

  if_ok-after :
      (r : Status) (next next' : M Status) (l : Lcd)
      → Alike next next'
      → l.device.dev_fd ≡ some fd
      → Both (if_ok (λ _. (r, l)) next l) (if_ok (λ _. (r, l)) next' l)
  if_ok-after ok next next' l n o = n l o
  if_ok-after (fail e) next next' l n o = (refl, o)

  if_ok-Alike :
      (first first' next next' : M Status)
      → Alike first first'
      → Alike next next'
      → Alike (if_ok first next) (if_ok first' next')
  if_ok-Alike first first' next next' f n l o =
      let (p, o') = f l o in
      let (q, o'') = if_ok-after (first' l).0 next next' (first' l).1 n o' in
      (ap (λ (x : Status × Lcd). if_ok (λ _. x) next l) p ∙ q, o'')

  expander_write-Alike : (v : ℕ) → Alike (expander_write attached v) (expander_write healthy v)
  unfolding expander_write I2c.transfer
  expander_write-Alike v l o = (rw o refl, o)

  pulse_enable-Alike : (v : ℕ) → Alike (pulse_enable attached v) (pulse_enable healthy v)
  unfolding pulse_enable usleep
  pulse_enable-Alike v =
      let low : (List Call → Request → Answer) → M Status =
        λ k. if_ok (expander_write k (bit_and v 0xfb)) (λ m. (ok, (wait 50 m).1)) in
      if_ok-Alike (expander_write attached (bit_or v en)) (expander_write healthy (bit_or v en))
        (λ l. low attached (wait 1 l).1) (λ l. low healthy (wait 1 l).1)
        (expander_write-Alike (bit_or v en))
        (λ l o.
          if_ok-Alike (expander_write attached (bit_and v 0xfb))
            (expander_write healthy (bit_and v 0xfb)) (λ m. (ok, (wait 50 m).1))
            (λ m. (ok, (wait 50 m).1)) (expander_write-Alike (bit_and v 0xfb)) (λ m p. (refl, p))
            (wait 1 l).1 o)

  write4bits-Alike : (v : ℕ) → Alike (write4bits attached v) (write4bits healthy v)
  unfolding write4bits
  write4bits-Alike v =
      if_ok-Alike (expander_write attached v) (expander_write healthy v) (pulse_enable attached v)
        (pulse_enable healthy v) (expander_write-Alike v) (pulse_enable-Alike v)

  send-Alike : (v mode : ℕ) → Alike (send attached v mode) (send healthy v mode)
  unfolding send
  send-Alike v mode =
      let high : ℕ = bit_or (bit_and v 0xf0) mode in
      let low : ℕ = bit_or (bit_and (v * 16 % 256) 0xf0) mode in
      if_ok-Alike (write4bits attached high) (write4bits healthy high) (write4bits attached low)
        (write4bits healthy low) (write4bits-Alike high) (write4bits-Alike low)

  command-Alike : (v : ℕ) → Alike (command attached v) (command healthy v)
  unfolding command
  command-Alike v = send-Alike v 0

  putchar-Alike : (c : ℕ) → Alike (putchar attached c) (putchar healthy c)
  unfolding putchar
  putchar-Alike c = send-Alike c 1

  pad-Same :
      (room : ℕ) (l l' : Lcd) → Same l l' → Same (pad attached room l).1 (pad healthy room l').1
  unfolding pad
  pad-Same zero l l' s = s
  pad-Same (suc room) l l' s =
      pad-Same room _ _
        (then_also (putchar attached b' ') (putchar healthy b' ') (putchar-Alike b' ') l l' s)

  fill-Same :
      (room : ℕ) (text : List ℕ) (l l' : Lcd)
      → Same l l'
      → Same (fill attached room text l).1 (fill healthy room text l').1
  unfolding fill
  fill-Same zero text l l' s = s
  fill-Same (suc room) [] l l' s = pad-Same (suc room) l l' s
  fill-Same (suc room) (c ∷ text) l l' s =
      fill-Same room text _ _
        (then_also (putchar attached c) (putchar healthy c) (putchar-Alike c) l l' s)

  pub puts_newline-Same :
      (stale y : ℕ) (text : List ℕ) (l l' : Lcd)
      → Same l l'
      → Same (puts_newline attached stale y text l).1 (puts_newline healthy stale y text l').1
  unfolding puts_newline gotoxy
  puts_newline-Same stale y text l l' s =
      let v : ℕ = bit_or 0x80 ((row_address stale y + 0) % 256) in
      let m = (send attached v 0 l).1 in
      let m' = (send healthy v 0 l').1 in
      let (p, o) = then_also (send attached v 0) (send healthy v 0) (send-Alike v 0) l l' s in
      let (q, o') = fill-Same m'.num_ofcols text m m' (p, o) in
      (ap (λ (x : Lcd). (fill attached x.num_ofcols text m).1) p ∙ q, o')

  write-Same :
      (v : ℕ) (l l' : Lcd)
      → Same l l'
      → Same (write4bits attached v l).1 (write4bits healthy v l').1
  write-Same v = then_also (write4bits attached v) (write4bits healthy v) (write4bits-Alike v)

  wait-Same : (us : ℕ) (l l' : Lcd) → Same l l' → Same (wait us l).1 (wait us l').1
  unfolding usleep
  wait-Same us l l' (p, o) = (ap (λ (x : Lcd). (wait us x).1) p, o)

  init_sequence-Same :
      (l l' : Lcd) → Same l l' → Same (init_sequence attached l).1 (init_sequence healthy l').1
  unfolding init_sequence
  init_sequence-Same l l' s =
      let a = wait-Same 1000 _ _ (
        then_also (expander_write attached 0) (expander_write healthy 0) (expander_write-Alike 0)
          (wait 50 l).1 (wait 50 l').1 (wait-Same 50 l l' s)) in
      let b = wait-Same 4500 _ _ (write-Same 0x30 _ _ a) in
      let c = wait-Same 4500 _ _ (write-Same 0x30 _ _ b) in
      let d = wait-Same 150 _ _ (write-Same 0x30 _ _ c) in write-Same 0x20 _ _ d

  command-Same :
      (v : ℕ) (l l' : Lcd) → Same l l' → Same (command attached v l).1 (command healthy v l').1
  command-Same v = then_also (command attached v) (command healthy v) (command-Alike v)

  -- A command whose byte depends on the display.
  command_of-Same :
      (v : Lcd → ℕ) (l l' : Lcd)
      → Same l l'
      → Same (command attached (v l) l).1 (command healthy (v l') l').1
  command_of-Same v l l' (p, o) =
      let (q, o') = command-Same (v l') l l' (p, o) in
      (ap (λ (x : Lcd). (command attached (v x) l).1) p ∙ q, o')

  home-Alike : Alike (home attached) (home healthy)
  unfolding home usleep
  home-Alike =
      if_ok-Alike (command attached lcd_returnhome) (command healthy lcd_returnhome)
        (λ l. (ok, (wait 2000 l).1)) (λ l. (ok, (wait 2000 l).1)) (command-Alike lcd_returnhome)
        (λ l o. (refl, o))

  init_settings-Same :
      (l l' : Lcd) → Same l l' → Same (init_settings attached l).1 (init_settings healthy l').1
  unfolding init_settings display clear
  init_settings-Same l l' s =
      let on : Lcd → Lcd = λ x. record x { displaycontrol = lcd_displayon } in
      let left : Lcd → Lcd = λ x. record x { displaymode = lcd_entryleft } in
      let (p1, o1) = command_of-Same (λ x. bit_or lcd_functionset x.displayfunction) l l' s in
      let two =
        command_of-Same (λ x. bit_or lcd_displaycontrol x.displaycontrol) _ _ (ap on p1, o1) in
      let (p3, o3) = wait-Same 2000 _ _ (command-Same lcd_cleardisplay _ _ two) in
      let four =
        command_of-Same (λ x. bit_or lcd_entrymodeset x.displaymode) _ _ (ap left p3, o3) in
      then_also (home attached) (home healthy) home-Alike _ _ four

  set_slave-Alike :
      (addr : ℕ)
      → Alike
          (on_device (I2c.set_slave_id attached addr))
          (on_device (I2c.set_slave_id healthy addr))
  unfolding I2c.set_slave_id
  set_slave-Alike addr l o = (rw o refl, o)

  after_slave :
      (r : Status) (l : Lcd)
      → l.device.dev_fd ≡ some fd
      → Same
          (if_ok (λ _. (r, l)) (init_sequence attached >> init_settings attached) l).1
          (if_ok (λ _. (r, l)) (init_sequence healthy >> init_settings healthy) l).1
  after_slave ok l o = init_settings-Same _ _ (init_sequence-Same l l (refl, o))
  after_slave (fail e) l o = (refl, o)

  pub init-Same :
      (addr cols lines dotsize : ℕ) (l : Lcd)
      → l.device.dev_fd ≡ some fd
      → Same (init attached addr cols lines dotsize l).1 (init healthy addr cols lines dotsize l).1
  unfolding init
  init-Same addr cols lines dotsize l o =
      let m : Lcd = record l {
        displayfunction = function_flags lines dotsize;
        num_ofcols = cols;
        num_oflines = lines;
      } in
      let (p, o') = set_slave-Alike addr m o in
      let x = on_device (I2c.set_slave_id healthy addr) m in
      let (q, o'') = after_slave x.0 x.1 o' in
      (
        ap
              (λ (y : Status × Lcd).
                (if_ok (λ _. y) (init_sequence attached >> init_settings attached) m).1)
              p
            ∙ q,
        o'',
      )

  pub backlight-Same :
      (l l' : Lcd) → Same l l' → Same (backlight attached true l).1 (backlight healthy true l').1
  unfolding backlight
  backlight-Same l l' (p, o) =
      let lit : Lcd → Lcd = λ x. record x { backlightval = lcd_backlight } in
      then_also (expander_write attached lcd_backlight) (expander_write healthy lcd_backlight)
        (expander_write-Alike lcd_backlight) (lit l) (lit l') (ap lit p, o)
