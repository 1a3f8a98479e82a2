-- ===== src/Main/Loop.antt =====
-- The timers and the display of `daemon_main`.
use jsntp_lcdd.Prelude.{ℕ, ◌+◌, ◌-◌, ◌*◌, ◌/◌, Bool, true, ◌||◌, List, if◌then◌else◌, ◌==◌, leb}
use jsntp_lcdd.I2c.{Call, Request, Answer}
use jsntp_lcdd.Lcd.Defs.{Lcd, M, ◌>>◌, return, init, backlight, puts_newline}

-- `Common::getTickCount`, of a `timespec`.
unfoldable pub get_tick_count : (tv_sec tv_nsec : ℕ) → ℕ
get_tick_count tv_sec tv_nsec = tv_sec * 1000 + tv_nsec / 1000000

-- The display and the two of the four timers that are used. The clock does not run backwards.
pub record State : Type 0 where
  pub lcd : Lcd
  pub timer2 : ℕ
  pub timer3 : ℕ

pub record Texts : Type 0 where
  pub line0 : List ℕ
  pub line1 : List ℕ
  pub line2 : List ℕ
  pub line3 : List ℕ

abbrev pub is_due : (cur : ℕ) → State → Bool
is_due cur s = s.timer2 == 0 || leb 60000 (cur - s.timer2)

module _ (kernel : List Call → Request → Answer) where
  unfoldable pub start_lcd : M (Unit {0})
  unfolding init backlight
  start_lcd = do init kernel 0x27 20 4 0; backlight kernel true; return tt

  unfoldable pub draw : (stale : ℕ) → Texts → M (Unit {0})
  unfolding puts_newline
  draw stale t = do
    puts_newline kernel stale 0 t.line0
    puts_newline kernel stale 1 t.line1
    puts_newline kernel stale 2 t.line2
    puts_newline kernel stale 3 t.line3

  -- The texts depend on `getCols()` of the display as it is then.
  unfoldable pub refresh : (stale cur : ℕ) → (ℕ → Texts) → State → State
  unfolding start_lcd draw
  refresh stale cur t s =
      let l : Lcd = if is_due cur s then (start_lcd s.lcd).1 else s.lcd in
      record {
        lcd = (draw stale (t l.num_ofcols) l).1;
        timer2 = if is_due cur s then cur else s.timer2;
        timer3 = cur;
      }
