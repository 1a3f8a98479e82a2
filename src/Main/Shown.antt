-- ===== src/Main/Shown.antt =====
-- What the whole display shows after a refresh by the main loop.
use jsntp_lcdd.Prelude.{
  ℕ, ◌+◌, ◌≤◌, ◌<◌, ◌≡◌, ◌⊎◌, inl, inr, refl, sym, subst, ap, ◌∙◌, true, false, List, arith, get_or,
  if◌then◌else◌, ==_iff, Bool-cases,
}
use jsntp_lcdd.I2c.{Call, Request, Answer, transfer}
use jsntp_lcdd.Lcd.Defs.{Lcd, backlight, expander_write, puts_newline, init}
use jsntp_lcdd.Lcd.Panel.{Chip, Panel, enabled, feed, feed_bytes, feed_msgs, panel, healthy}
use jsntp_lcdd.Lcd.Wire.{IsLight, chip}
use jsntp_lcdd.Lcd.Typing.{IsBytes, InLine}
use jsntp_lcdd.Lcd.Screen.{Running, Shows, puts_newline-Shows}
use jsntp_lcdd.Lcd.Init.{init-Started}
use jsntp_lcdd.Lcd.Light.{Steady, puts_newline-Steady}
use jsntp_lcdd.Main.Loop.{State, Texts, is_due, start_lcd, draw, refresh}

abbrev pub AreBytes : Texts → Type 0
AreBytes t = IsBytes t.line0 × IsBytes t.line1 × IsBytes t.line2 × IsBytes t.line3

-- The cells of a line, which starts at `row`, show a text.
abbrev pub Reads : Chip → ℕ → List ℕ → Type 0
Reads c row text = (x : ℕ) → x < 20 → c.ddram (row + x) ≡ get_or text x b' '

-- The display is switched on and lit.
pub record IsOn (start : Panel) (l : Lcd) : Type 0 where
  pub running : Running 0x27 start l
  pub switched : (chip 0x27 start l).shown ≡ true
  pub lit : l.backlightval ≡ 8

pub record Screen (start : Panel) (t : Texts) (l : Lcd) : Type 0 where
  pub top : Reads (chip 0x27 start l) 0x00 t.line0
  pub second : Reads (chip 0x27 start l) 0x40 t.line1
  pub third : Reads (chip 0x27 start l) 0x14 t.line2
  pub bottom : Reads (chip 0x27 start l) 0x54 t.line3
  pub on : IsOn start l

-- The backlight bit of a drawn display is that of before.
pub draw-Steady :
    (kernel : List Call → Request → Answer) (stale : ℕ) (t : Texts) → Steady (draw kernel stale t)
unfolding draw
draw-Steady kernel stale t l =
    let l1 : Lcd = (puts_newline kernel stale 0 t.line0 l).1 in
    let l2 : Lcd = (puts_newline kernel stale 1 t.line1 l1).1 in
    let l3 : Lcd = (puts_newline kernel stale 2 t.line2 l2).1 in
    puts_newline-Steady kernel stale 3 t.line3 l3
    ∙ puts_newline-Steady kernel stale 2 t.line2 l2
    ∙ puts_newline-Steady kernel stale 1 t.line1 l1
    ∙ puts_newline-Steady kernel stale 0 t.line0 l

keep_line :
    {start : Panel} {l l' : Lcd} {row : ℕ} {text : List ℕ} (other : ℕ) (shown : List ℕ)
    → (row + 20 ≤ other) ⊎ (other + 20 ≤ row)
    → Reads (chip 0x27 start l) other shown
    → Shows 0x27 start row text l l'
    → Reads (chip 0x27 start l') other shown
keep_line {row = row} other shown apart r s x h =
    let away : ¬ InLine row (other + x) = λ within. omega arith in
    s.outside (other + x) away ∙ r x h

module _ {start : Panel} where
  draw-Screen :
      (stale : ℕ) (t : Texts) (l : Lcd)
      → AreBytes t
      → IsOn start l
      → Screen start t (draw healthy stale t l).1
  unfolding draw
  draw-Screen stale t l (b0, b1, b2, b3) o =
      let s0 =
        puts_newline-Shows {at = 0x27} {start = start} stale 0 t.line0 l (omega arith) b0
          o.running in
      let l1 = (puts_newline healthy stale 0 t.line0 l).1 in
      let s1 =
        puts_newline-Shows {at = 0x27} {start = start} stale 1 t.line1 l1 (omega arith) b1
          s0.running in
      let l2 = (puts_newline healthy stale 1 t.line1 l1).1 in
      let s2 =
        puts_newline-Shows {at = 0x27} {start = start} stale 2 t.line2 l2 (omega arith) b2
          s1.running in
      let l3 = (puts_newline healthy stale 2 t.line2 l2).1 in
      let s3 =
        puts_newline-Shows {at = 0x27} {start = start} stale 3 t.line3 l3 (omega arith) b3
          s2.running in
      record {
        top =
            keep_line 0x00 t.line0 (inr (omega arith))
              (keep_line 0x00 t.line0 (inr (omega arith))
                (keep_line 0x00 t.line0 (inr (omega arith)) s0.inside s1) s2)
              s3;
        second =
            keep_line 0x40 t.line1 (inr (omega arith))
              (keep_line 0x40 t.line1 (inl (omega arith)) s1.inside s2) s3;
        third = keep_line 0x14 t.line2 (inr (omega arith)) s2.inside s3;
        bottom = s3.inside;
        on = record {
          running = s3.running;
          switched = s3.switch ∙ s2.switch ∙ s1.switch ∙ s0.switch ∙ o.switched;
          lit = draw-Steady healthy stale t l ∙ o.lit;
        };
      }

panel-backlight :
    (start : Panel) (l : Lcd)
    → l.device.slave_addr ≡ 0x27
    → enabled (panel 0x27 start l.device.calls).lines ≡ false
    → panel 0x27 start (backlight healthy true l).1.device.calls
      ≡ record { lines = 8; chip = chip 0x27 start l }
unfolding backlight expander_write transfer panel feed_msgs feed_bytes feed
panel-backlight start l h e = ground (arith, ==_iff l.device.slave_addr 0x27)

backlight-Running :
    (start : Panel) (l : Lcd)
    → Running 0x27 start l
    → Running 0x27 start (backlight healthy true l).1
unfolding backlight expander_write transfer
backlight-Running start l r =
    let p = panel-backlight start l r.ready.here r.ready.low in
    record {
      ready = record {
        here = r.ready.here;
        light = inr refl;
        low = ap (λ (q : Panel). enabled q.lines) p;
      };
      synced = record {
        four = ap (λ (q : Panel). q.chip.four_bit) p ∙ r.synced.four;
        between = ap (λ (q : Panel). q.chip.pending) p ∙ r.synced.between;
      };
      forward = ap (λ (q : Panel). q.chip.increment) p ∙ r.forward;
      width = r.width;
    }

start-IsOn : (start : Panel) (l : Lcd) → IsLight l.backlightval → IsOn start (start_lcd healthy l).1
unfolding start_lcd backlight expander_write
start-IsOn start l b =
    let (e, ready, started) = init-Started start l 0x27 20 4 0 b in
    let l1 = (init healthy 0x27 20 4 0 l).1 in
    let r : Running 0x27 start l1 = record {
      ready = ready;
      synced = started.synced;
      forward = started.forward;
      width = started.width;
    } in
    record {
      running = backlight-Running start l1 r;
      switched =
          ap (λ (q : Panel). q.chip.shown) (panel-backlight start l1 r.ready.here r.ready.low)
          ∙ started.on;
      lit = refl;
    }

still-IsOn :
    (start : Panel) (cur : ℕ) (s : State)
    → is_due cur s ≡ false
    → (is_due cur s ≡ true) ⊎ IsOn start s.lcd
    → IsOn start s.lcd
still-IsOn start cur s early (inl due) = absurd (cc)
still-IsOn start cur s early (inr r) = r

drawn_by_cols :
    {start : Panel} (stale : ℕ) (t : ℕ → Texts) (l : Lcd)
    → AreBytes (t 20)
    → IsOn start l
    → Screen start (t 20) (draw healthy stale (t l.num_ofcols) l).1
drawn_by_cols {start = start} stale t l b r =
    subst (λ (n : ℕ). Screen start (t 20) (draw healthy stale (t n) l).1) (sym r.running.width)
      (draw-Screen stale (t 20) l b r)

-- After a refresh the display shows its texts.
pub refresh-Screen :
    (start : Panel) (stale cur : ℕ) (t : ℕ → Texts) (s : State)
    → AreBytes (t 20)
    → IsLight s.lcd.backlightval
    → (is_due cur s ≡ true) ⊎ IsOn start s.lcd
    → let s' = refresh healthy stale cur t s in
      Screen start (t 20) s'.lcd
      × (s'.timer3 ≡ cur)
      × (s'.timer2 ≡ (if is_due cur s then cur else s.timer2))
unfolding refresh
refresh-Screen start stale cur t s b light ready = elim (Bool-cases (is_due cur s)) [
  | inl due ↦
      let l = (start_lcd healthy s.lcd).1 in
      rw due (drawn_by_cols stale t l b (start-IsOn start s.lcd light), refl, refl)
  | inr early ↦
      let r = still-IsOn start cur s early ready in
      rw early (drawn_by_cols stale t s.lcd b r, refl, refl)
]
