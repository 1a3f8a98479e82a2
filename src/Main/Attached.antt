-- ===== src/Main/Attached.antt =====
-- A refresh by the main loop on a bus that carries the transfers of an open descriptor alone.
use jsntp_lcdd.Prelude.{ℕ, ◌≡◌, ap, refl, ◌∙◌, Bool-cases, inl, inr, some}
use jsntp_lcdd.Lcd.Defs.{Lcd}
use jsntp_lcdd.Lcd.Panel.{healthy}
use jsntp_lcdd.Lcd.Opened.{attached, Same, puts_newline-Same, init-Same, backlight-Same}
use jsntp_lcdd.Main.Loop.{State, Texts, is_due, start_lcd, draw, refresh}

module _ (fd : ℕ) where
  start_lcd-Same :
      (l : Lcd)
      → l.device.dev_fd ≡ some fd
      → Same fd (start_lcd attached l).1 (start_lcd healthy l).1
  unfolding start_lcd
  start_lcd-Same l o = backlight-Same fd _ _ (init-Same fd 0x27 20 4 0 l o)

  draw-Same :
      (stale : ℕ) (t : Texts) (l l' : Lcd)
      → Same fd l l'
      → Same fd (draw attached stale t l).1 (draw healthy stale t l').1
  unfolding draw
  draw-Same stale t l l' s = puts_newline-Same fd stale 3 t.line3 _ _ (
      puts_newline-Same fd stale 2 t.line2 _ _
        (puts_newline-Same fd stale 1 t.line1 _ _ (puts_newline-Same fd stale 0 t.line0 l l' s)))

  drawn-Same :
      (stale : ℕ) (t : ℕ → Texts) (l l' : Lcd)
      → Same fd l l'
      → (draw attached stale (t l.num_ofcols) l).1 ≡ (draw healthy stale (t l'.num_ofcols) l').1
  drawn-Same stale t l l' (p, o) =
      ap (λ (x : Lcd). (draw attached stale (t x.num_ofcols) x).1) p
      ∙ (draw-Same stale (t l'.num_ofcols) l' l' (refl, o)).0

  pub refresh-attached :
      (stale cur : ℕ) (t : ℕ → Texts) (s : State)
      → s.lcd.device.dev_fd ≡ some fd
      → refresh attached stale cur t s ≡ refresh healthy stale cur t s
  unfolding refresh
  refresh-attached stale cur t s o = elim (Bool-cases (is_due cur s)) [
    | inl due ↦ rw due (
        ap (λ (l : Lcd). record { lcd = l; timer2 = cur; timer3 = cur })
          (drawn-Same stale t _ _ (start_lcd-Same s.lcd o)))
    | inr early ↦ rw early (
        ap (λ (l : Lcd). record { lcd = l; timer2 = s.timer2; timer3 = cur })
          (drawn-Same stale t s.lcd s.lcd (refl, o)))
  ]
