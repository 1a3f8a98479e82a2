-- ===== src/Lcd/Screen.antt =====
-- What a line of the display shows after `puts_newline`.
use jsntp_lcdd.Prelude.{
  ℕ, zero, suc, ◌+◌, ◌<◌, bit_or, ◌≡◌, refl, sym, ap, subst, ◌∙◌, inl, true, List, arith, get_or,
}
use jsntp_lcdd.Lcd.Defs.{Lcd, row_address, send, fill, gotoxy, puts_newline}
use jsntp_lcdd.Lcd.Panel.{Chip, Panel, instruct, exec, healthy}
use jsntp_lcdd.Lcd.Wire.{Ready, chip, Wrote, Synced, send-Wrote}
use jsntp_lcdd.Lcd.Typing.{
  IsBytes, padded, type_all, type_on, fill-Wrote, InLine, Fits, type_all-Synced, type_all-shown,
  line-inside, line-outside,
}

-- Where the object and the controller stand while `main` prints: `init` has been called with 20
-- columns, and nothing is half sent.
pub record Running (at : ℕ) (start : Panel) (l : Lcd) : Type 0 where
  pub ready : Ready at start l
  pub synced : Synced (chip at start l)
  pub forward : (chip at start l).increment ≡ true
  pub width : l.num_ofcols ≡ 20

-- The line `y` of the display after a text was put there.
pub record Shows (at : ℕ) (start : Panel) (row : ℕ) (text : List ℕ) (l l' : Lcd) : Type 0 where
  pub inside : (x : ℕ) → x < 20 → (chip at start l').ddram (row + x) ≡ get_or text x b' '
  pub outside : (a : ℕ) → ¬ InLine row a → (chip at start l').ddram a ≡ (chip at start l).ddram a
  pub running : Running at start l'
  pub switch : (chip at start l').shown ≡ (chip at start l).shown

row-Fits : (stale y : ℕ) → y < 4 → Fits (row_address stale y) 20
row-Fits stale y h = ground arith

set_address :
    (row : ℕ) (c : Chip)
    → bit_or 0x80 row ≡ 128 + row
    → exec (bit_or 0x80 row) 0 c ≡ record c { address = row }
unfolding exec instruct
set_address row c e = ground arith

module _ {at : ℕ} {start : Panel} where
  goto_row :
      (row : ℕ) (l : Lcd)
      → row < 128
      → bit_or 0x80 row ≡ 128 + row
      → Ready at start l
      → Synced (chip at start l)
      → Wrote at start
          (record (chip at start l) { address = row })
          l
          (send healthy (bit_or 0x80 row) 0 l).1
  goto_row row l h e r s =
      let sent = send-Wrote (bit_or 0x80 row) 0 l (omega (arith, e)) (inl refl) r s in
      record { ready = sent.ready; keeps = sent.keeps; now = sent.now ∙ set_address row _ e }

  gotoxy-Wrote :
      (stale y : ℕ) (l : Lcd)
      → y < 4
      → Ready at start l
      → Synced (chip at start l)
      → Wrote at start
          (record (chip at start l) { address = row_address stale y })
          l
          (gotoxy healthy stale y 0 l).1
  unfolding gotoxy
  gotoxy-Wrote stale zero l h r s = goto_row 0 l (omega arith) refl r s
  gotoxy-Wrote stale (suc zero) l h r s = goto_row 0x40 l (omega arith) refl r s
  gotoxy-Wrote stale (suc (suc zero)) l h r s = goto_row 0x14 l (omega arith) refl r s
  gotoxy-Wrote stale (suc (suc (suc zero))) l h r s = goto_row 0x54 l (omega arith) refl r s
  gotoxy-Wrote stale (suc (suc (suc (suc y)))) l h r s = absurd (omega arith)

  -- The two loops of `puts_newline`, on a line that starts at `row`.
  fill-Shows :
      (row : ℕ) (text : List ℕ) (l m n : Lcd)
      → Fits row 20
      → Running at start l
      → Wrote at start (record (chip at start l) { address = row }) l m
      → Wrote at start (type_all (padded 20 text) (chip at start m)) m n
      → Shows at start row text l n
  fill-Shows row text l m n f r w v =
      let whole = type_on (padded 20 text) w v in
      let c = chip at start l in
      let kept =
        type_all-Synced (padded 20 text) (record c { address = row }) r.forward
          (record { four = r.synced.four; between = r.synced.between }) in
      record {
        inside =
            λ x h. ap (λ d. d.ddram (row + x)) whole.now ∙ line-inside row text c r.forward f x h;
        outside = λ a h. ap (λ d. d.ddram a) whole.now ∙ line-outside row text c r.forward f a h;
        running = record {
          ready = whole.ready;
          synced = rw whole.now kept.0;
          forward = rw whole.now kept.1;
          width = whole.keeps.cols ∙ r.width;
        };
        switch =
            ap (λ d. d.shown) whole.now
            ∙ type_all-shown (padded 20 text) (record c { address = row });
      }

  pub puts_newline-Shows :
      (stale y : ℕ) (text : List ℕ) (l : Lcd)
      → y < 4
      → IsBytes text
      → Running at start l
      → Shows at start (row_address stale y) text l (puts_newline healthy stale y text l).1
  unfolding puts_newline
  puts_newline-Shows stale y text l h b r =
      let m = (gotoxy healthy stale y 0 l).1 in
      let row = row_address stale y in
      let there = gotoxy-Wrote stale y l h r.ready r.synced in
      let at_row = record (chip at start l) { address = row } in
      let kept : Synced at_row = record { four = r.synced.four; between = r.synced.between } in
      let typed = fill-Wrote 20 text m b there.ready (rw there.now kept) in
      subst (λ k. Shows at start row text l (fill healthy k text m).1) (sym r.width)
        (fill-Shows row text l m _ (row-Fits stale y h) r there typed)
