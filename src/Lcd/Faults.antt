-- ===== src/Lcd/Faults.antt =====
-- What the object does when the bus refuses a call.
use jsntp_lcdd.Prelude.{◌*◌, ◌%◌, bit_and, bit_or, ℕ, suc, ◌≡◌, refl, List, [], ◌∷◌, arith, ◌∙◌, ap}
use jsntp_lcdd.I2c.{
  Status, ok, fail, Request, Answer, done, failed, Call, asked, slept, usleep, transfer, set_slave,
}
use jsntp_lcdd.Lcd.Defs.{
  Lcd, M, if_ok, wait, expander_write, pulse_enable, write4bits, send, command, home, init,
}

-- The calls that the system refused.
abbrev pub faults : List Call → ℕ
faults [] = 0
faults (asked r (failed e) ∷ older) = suc (faults older)
faults (asked r (done v) ∷ older) = faults older
faults (slept us ∷ older) = faults older

-- The last thing that happened is a refusal with this error.
abbrev pub Refused : ℕ → List Call → Type 0
Refused e [] = ⊥
Refused e (asked r (failed e') ∷ older) = e' ≡ e
Refused e (asked r (done v) ∷ older) = ⊥
Refused e (slept us ∷ older) = ⊥

-- Success: nothing was refused. Failure: one call was, and nothing was asked after it.
abbrev pub Outcome : Lcd → Status → Lcd → Type 0
Outcome l ok l' = faults l'.device.calls ≡ faults l.device.calls
Outcome l (fail e) l' =
    (faults l'.device.calls ≡ suc (faults l.device.calls)) × Refused e l'.device.calls

abbrev pub Stops : M Status → Type 0
Stops m = (l : Lcd) → Outcome l (m l).0 (m l).1

Outcome-ok : (l m n : Lcd) (r : Status) → Outcome l ok m → Outcome m r n → Outcome l r n
Outcome-ok l m n ok p q = q ∙ p
Outcome-ok l m n (fail e) p q = (q.0 ∙ ap suc p, q.1)

if_ok-Outcome :
    (next : M Status) (l : Lcd) (r : Status) (m : Lcd)
    → Stops next
    → Outcome l r m
    → let (s, n) = if_ok (λ _. (r, m)) next l in Outcome l s n
if_ok-Outcome next l ok m h o = Outcome-ok l m (next m).1 (next m).0 o (h m)
if_ok-Outcome next l (fail e) m h o = o

if_ok-Stops : (first next : M Status) → Stops first → Stops next → Stops (if_ok first next)
if_ok-Stops first next f n l = if_ok-Outcome next l (first l).0 (first l).1 n (f l)

wait-Stops : (us : ℕ) → Stops (λ l. (ok, (wait us l).1))
unfolding usleep
wait-Stops us l = refl

module _ (kernel : List Call → Request → Answer) where
  expander_write-Stops : (v : ℕ) → Stops (expander_write kernel v)
  unfolding expander_write transfer
  expander_write-Stops v l = ground arith

  pulse_enable-Stops : (v : ℕ) → Stops (pulse_enable kernel v)
  unfolding pulse_enable usleep
  pulse_enable-Stops v = if_ok-Stops _ _ (expander_write-Stops _) (λ l.
      if_ok-Stops _ (λ m. (ok, (wait 50 m).1)) (expander_write-Stops (bit_and v 0xfb))
        (wait-Stops 50) (wait 1 l).1)

  write4bits-Stops : (v : ℕ) → Stops (write4bits kernel v)
  unfolding write4bits
  write4bits-Stops v = if_ok-Stops _ _ (expander_write-Stops v) (pulse_enable-Stops v)

  -- On any bus a send that succeeds had no refused call, and one that fails had exactly one,
  -- its last, and returns that error.
  pub send-Stops : (v m : ℕ) → Stops (send kernel v m)
  unfolding send
  send-Stops v m =
      if_ok-Stops _ _ (write4bits-Stops (bit_or (bit_and v 0xf0) m))
        (write4bits-Stops (bit_or (bit_and (v * 16 % 256) 0xf0) m))

  home-Stops : Stops (home kernel)
  unfolding home command usleep
  home-Stops = if_ok-Stops _ (λ l. (ok, (wait 2000 l).1)) (send-Stops 0x02 0) (wait-Stops 2000)

-- `init` reports only whether the slave's address could be set: what the bus does with the display's
-- own bytes is not in the result.
abbrev pub answer_status : Answer → Status
answer_status (done v) = ok
answer_status (failed e) = fail e

-- The result of init is that of setting the slave address, whatever the bus does with the
-- transfers after it.
pub init-status :
    (kernel : List Call → Request → Answer) (at cols lines dotsize : ℕ) (l : Lcd)
    → (init kernel at cols lines dotsize l).0
      ≡ answer_status (kernel l.device.calls (set_slave l.device.dev_fd at))
unfolding init
init-status kernel at cols lines dotsize l = ground arith
