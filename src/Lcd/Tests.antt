-- ===== src/Lcd/Tests.antt =====
-- Concrete runs of the display.
use jsntp_lcdd.Prelude.{◌≡◌, refl, inl, true, none, some, List}
use jsntp_lcdd.I2c.{Call, Request, Answer, failed, new_device, ok}
use jsntp_lcdd.Lcd.Defs.{Lcd, send, init}
use jsntp_lcdd.Lcd.Panel.{Chip, Panel, healthy}
use jsntp_lcdd.Lcd.Wire.{Ready, chip}
use jsntp_lcdd.Lcd.Init.{Started, init-Started}
use jsntp_lcdd.Lcd.Faults.{Outcome, send-Stops}

-- A controller in 4-bit mode with a blank memory.
abbrev idle : Chip
idle = record {
  four_bit = true;
  pending = none;
  address = 0;
  ddram = λ _. b' ';
  shown = true;
  increment = true;
}

abbrev dark : Panel
dark = record { lines = 0; chip = idle }

abbrev lcd20 : Lcd
lcd20 = record {
  device = record new_device { dev_fd = some 3; slave_addr = 0x27 };
  num_oflines = 4;
  num_ofcols = 20;
  displayfunction = 0x08;
  displaycontrol = 0x04;
  displaymode = 0x02;
  backlightval = 0;
}

init_example :
    let (r, l') = init healthy 0x27 20 4 0 lcd20 in
    (r ≡ ok) × Ready 0x27 dark l' × Started 20 l' (chip 0x27 dark l')
init_example = init-Started dark lcd20 0x27 20 4 0 (inl refl)

-- A bus that is gone (`EIO` is 5).
abbrev gone : List Call → Request → Answer
gone calls r = failed 5

send_example : Outcome lcd20 (send gone 65 1 lcd20).0 (send gone 65 1 lcd20).1
send_example = send-Stops gone 65 1 lcd20
