-- ===== src/Lcd/Defs.antt =====
-- The class `I2CLCD`: each member function is a function on the state of the object.
use jsntp_lcdd.Prelude.{
  ℕ, zero, suc, ◌*◌, ◌+◌, ◌%◌, bit_and, bit_or, Bool, ◌&&◌, not, List, [], ◌∷◌, if◌then◌else◌, ltb,
  ◌==◌,
}
use jsntp_lcdd.I2c
use jsntp_lcdd.I2c.{Status, ok, fail, Call, Request, Answer, Device}

-- Commands and flags.
abbrev pub lcd_cleardisplay : ℕ
lcd_cleardisplay = 0x01

abbrev pub lcd_returnhome : ℕ
lcd_returnhome = 0x02

abbrev pub lcd_entrymodeset : ℕ
lcd_entrymodeset = 0x04

abbrev pub lcd_displaycontrol : ℕ
lcd_displaycontrol = 0x08

abbrev pub lcd_functionset : ℕ
lcd_functionset = 0x20

abbrev pub lcd_entryleft : ℕ
lcd_entryleft = 0x02

abbrev pub lcd_displayon : ℕ
lcd_displayon = 0x04

abbrev pub lcd_2line : ℕ
lcd_2line = 0x08

abbrev pub lcd_5x10dots : ℕ
lcd_5x10dots = 0x04

abbrev pub lcd_backlight : ℕ
lcd_backlight = 0x08

-- `En`, the enable bit, and `Rs`, the register select bit.
abbrev pub en : ℕ
en = 0x04

abbrev pub rs : ℕ
rs = 0x01

-- The four `unsigned char` members hold what the constructor and `init` leave in them.
pub record Lcd : Type 0 where
  pub device : Device
  pub num_oflines : ℕ
  pub num_ofcols : ℕ
  pub displayfunction : ℕ
  pub displaycontrol : ℕ
  pub displaymode : ℕ
  pub backlightval : ℕ

abbrev pub M : Type 0 → Type 0
M A = Lcd → A × Lcd

infixl 5 ◌>>=◌ ◌>>◌
abbrev pub ◌>>=◌ : {A B : Type 0} → M A → (A → M B) → M B
◌>>=◌ m f l = let (a, l') = m l in f a l'

abbrev pub ◌>>◌ : {A B : Type 0} → M A → M B → M B
m >> k = m >>= λ _. k

abbrev pub return : {A : Type 0} → A → M A
return a l = (a, l)

abbrev pub on_device : {A : Type 0} → (Device → A × Device) → M A
on_device f l = let (a, d) = f l.device in (a, record l { device = d })

abbrev pub wait : ℕ → M (Unit {0})
wait us l = (tt, record l { device = I2c.usleep us l.device })

-- `nrst = first; if(nrst == 1) nrst = next;`
abbrev pub if_ok : M Status → M Status → M Status
if_ok first next l = let (r, l') = first l in elim r [ ok ↦ next l' | fail e ↦ (fail e, l') ]

-- The constructor: the members that it does not set are those of `stale`.
abbrev pub new_lcd : Lcd → Lcd
new_lcd stale = record stale { device = I2c.new_device; backlightval = 0 }

-- `m_displayfunction` as `init` computes it; the masks clear flags whose value is 0.
abbrev pub function_flags : ℕ → ℕ → ℕ
function_flags lines dotsize =
    bit_or (if ltb 1 lines then lcd_2line else 0)
      (if not (dotsize == 0) && lines == 1 then lcd_5x10dots else 0)

-- The `switch` of `gotoxy` leaves `address` as it was on the stack for any other `y`.
abbrev pub row_address : ℕ → ℕ → ℕ
row_address stale y =
    if y == 0
    then 0x00
    else if y == 1
    then 0x40
    else if y == 2
    then 0x14
    else if y == 3
    then 0x54
    else stale

module _ (kernel : List Call → Request → Answer) where
  unfoldable pub bus_open : List ℕ → M Status
  unfolding I2c.bus_open
  bus_open path = on_device (I2c.bus_open kernel path)

  unfoldable pub bus_close : M (Unit {0})
  unfolding I2c.bus_close
  bus_close = on_device (λ d. (tt, I2c.bus_close kernel d))

  unfoldable pub expander_write : ℕ → M Status
  unfolding I2c.transfer
  expander_write value l =
      on_device
        (I2c.transfer kernel
          (record { addr = 0; flags = 0; buf = bit_or value l.backlightval ∷ [] } ∷ []))
        l

  -- `data & ~En` is stored in an `unsigned char`.
  unfoldable pub pulse_enable : ℕ → M Status
  unfolding expander_write I2c.usleep
  pulse_enable byte =
      if_ok (expander_write (bit_or byte en))
        (do wait 1; if_ok (expander_write (bit_and byte 0xfb)) (do wait 50; return ok))

  unfoldable pub write4bits : ℕ → M Status
  unfolding expander_write pulse_enable
  write4bits value = if_ok (expander_write value) (pulse_enable value)

  unfoldable pub send : ℕ → ℕ → M Status
  unfolding write4bits
  send value mode =
      let highnib : ℕ = bit_and value 0xf0 in
      let lownib : ℕ = bit_and (value * 16 % 256) 0xf0 in
      if_ok (write4bits (bit_or highnib mode)) (write4bits (bit_or lownib mode))

  unfoldable pub command : ℕ → M Status
  unfolding send
  command value = send value 0

  unfoldable pub putchar : ℕ → M Status
  unfolding send
  putchar c = send c rs

  unfoldable pub clear : M Status
  unfolding command I2c.usleep
  clear = do nrst ← command lcd_cleardisplay; wait 2000; return nrst

  -- The wait is skipped when the command failed.
  unfoldable pub home : M Status
  unfolding command I2c.usleep
  home = if_ok (command lcd_returnhome) (do wait 2000; return ok)

  unfoldable pub display : M Status
  unfolding command
  display l = command (bit_or lcd_displaycontrol l.displaycontrol) l

  -- `display(bool)`.
  unfoldable pub display_set : Bool → M Status
  unfolding command
  display_set on l =
      let c = if on then bit_or l.displaycontrol lcd_displayon else bit_and l.displaycontrol 0xfb in
      command (bit_or lcd_displaycontrol c) (record l { displaycontrol = c })

  unfoldable pub backlight : Bool → M Status
  unfolding expander_write
  backlight on l =
      let b = if on then lcd_backlight else 0 in expander_write b (record l { backlightval = b })

  -- Each write of the sequence is made whether or not the one before it failed.
  unfoldable pub init_sequence : M (Unit {0})
  unfolding expander_write write4bits I2c.usleep
  init_sequence = do
    wait 50
    expander_write 0
    wait 1000
    write4bits 0x30
    wait 4500
    write4bits 0x30
    wait 4500
    write4bits 0x30
    wait 150
    write4bits 0x20
    return tt

  unfoldable pub init_settings : M Status
  unfolding command display clear home
  init_settings = do
    (λ l. command (bit_or lcd_functionset l.displayfunction) l)
    (λ l. (tt, record l { displaycontrol = lcd_displayon }))
    display
    clear
    (λ l. (tt, record l { displaymode = lcd_entryleft }))
    (λ l. command (bit_or lcd_entrymodeset l.displaymode) l)
    home
    return ok

  unfoldable pub init : ℕ → ℕ → ℕ → ℕ → M Status
  unfolding I2c.set_slave_id init_sequence init_settings
  init slaveaddr cols lines dotsize l =
      if_ok (on_device (I2c.set_slave_id kernel slaveaddr)) (init_sequence >> init_settings)
        (record l {
          displayfunction = function_flags lines dotsize;
          num_ofcols = cols;
          num_oflines = lines;
        })

  unfoldable pub gotoxy : (stale y x : ℕ) → M (Unit {0})
  unfolding send
  gotoxy stale y x = do send (bit_or 0x80 ((row_address stale y + x) % 256)) 0; return tt

  -- The second loop of `puts_newline`.
  unfoldable pub pad : ℕ → M (Unit {0})
  unfolding putchar
  pad zero = return tt
  pad (suc room) = putchar b' ' >> pad room

  -- Both loops, with the columns that are left.
  unfoldable pub fill : ℕ → List ℕ → M (Unit {0})
  unfolding putchar pad
  fill zero text = return tt
  fill (suc room) [] = pad (suc room)
  fill (suc room) (c ∷ text) = putchar c >> fill room text

  unfoldable pub puts_newline : (stale y : ℕ) → List ℕ → M (Unit {0})
  unfolding gotoxy fill
  puts_newline stale y text = do gotoxy stale y 0; (λ l. fill l.num_ofcols text l)

  -- `printf` after its formatting: what `vsnprintf` left in the buffer, at most 127 bytes.
  unfoldable pub put_all : List ℕ → M (Unit {0})
  unfolding putchar
  put_all [] = return tt
  put_all (c ∷ text) = putchar c >> put_all text
