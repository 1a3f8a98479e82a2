-- ===== src/Ntp/Interval.antt =====
-- `when` and `prettyinterval` of ntpqmod.c, and the poll interval that `doreadpeer` prints.
use jsntp_lcdd.Prelude.{
  ℕ, ◌==◌, ◌+◌, ◌-◌, ◌*◌, ◌/◌, ◌%◌, ◌^◌, ◌≤◌, ◌<◌, ◌≡◌, List, [], ◌∷◌, ◌++◌, append-nil, arith,
  if◌then◌else◌, ltb, leb, length, length-append, take, take-all, ◌∙◌,
}
use jsntp_lcdd.Prelude.Int.{ℤ, pos, negsuc, ltb_ℤ}
use jsntp_lcdd.Prelude.Decimal.{decimal, length-decimal}

-- `l_fp`: a 32-bit count of seconds and its fraction.
pub record Lfp : Type 0 where
  pub l_ui : ℕ
  pub l_uf : ℕ

-- A number of 32 bits as `long`, which the configuration (SIZEOF_LONG) makes 32 bits wide.
unfoldable pub to_long : ℕ → ℤ
to_long n = if ltb n (2 ^ 31) then pos n else negsuc (2 ^ 32 - 1 - n)

-- The difference is taken in `u_int32` and then put into `long`.
unfoldable pub since : (ts rec reftime : Lfp) → ℤ
unfolding to_long
since ts rec reftime =
    let minus = λ (last : Lfp). to_long ((ts.l_ui + 2 ^ 32 - last.l_ui) % 2 ^ 32) in
    if ltb 0 rec.l_ui then minus rec else if ltb 0 reftime.l_ui then minus reftime else pos 0

-- `snprintf(buf, cb, ...)` leaves at most `cb - 1` characters.
abbrev pub snprintf : ℕ → List ℕ → List ℕ
snprintf cb text = take (cb - 1) text

-- The interval in minutes, from its first sum on.
unfoldable pub print_minutes : (cb minutes : ℕ) → List ℕ
print_minutes cb minutes =
    let hours : ℕ = (minutes + 29) / 60 in
    let days : ℕ = (hours + 11) / 24 in
    if leb minutes 300
    then snprintf cb (decimal minutes ++ b'm' ∷ [])
    else if leb hours 96
    then snprintf cb (decimal hours ++ b'h' ∷ [])
    else snprintf cb (decimal days ++ b'd' ∷ [])

-- The sum `diff + 29` wraps around in 32 bits, as the processor adds (in C it is undefined where it
-- does not fit); a division of a negative number is cut towards 0.
unfoldable pub prettyinterval : ℕ → ℤ → List ℕ
unfolding to_long print_minutes
prettyinterval cb (negsuc n) = b'-' ∷ []
prettyinterval cb (pos diff) =
    let sum : ℤ = to_long ((diff + 29) % 2 ^ 32) in
    if leb diff 0
    then b'-' ∷ []
    else if leb diff 2048
    then snprintf cb (decimal diff)
    else elim sum [
      | pos n ↦ print_minutes cb (n / 60)
      | negsuc n ↦ snprintf cb (b'-' ∷ (decimal ((n + 1) / 60) ++ b'm' ∷ []))
    ]

-- `1 << min(ppoll, hpoll)` in `int`; what it gives outside 0 to 30 is `overflow`.
unfoldable pub poll_sec : (overflow : ℤ → ℤ) → (ppoll hpoll : ℤ) → ℤ
poll_sec overflow ppoll hpoll =
    let least : ℤ = if ltb_ℤ ppoll hpoll then ppoll else hpoll in
    elim least [
      | pos n ↦ if ltb n 31 then pos (2 ^ n) else overflow (pos n)
      | negsuc n ↦ overflow (negsuc n)
    ]

-- The letter behind a number, its length in seconds, and how far a shown number may be above and
-- below the interval.
pub data Scale : Type 0 where
  second minute hour day : Scale

abbrev pub suffix : Scale → List ℕ
suffix second = []
suffix minute = b'm' ∷ []
suffix hour = b'h' ∷ []
suffix day = b'd' ∷ []

abbrev pub seconds : Scale → ℕ
seconds second = 1
seconds minute = 60
seconds hour = 3600
seconds day = 86400

abbrev pub above : Scale → ℕ
above second = 0
above minute = 29
above hour = 1769
above day = 41369

abbrev pub below : Scale → ℕ
below second = 0
below minute = 30
below hour = 1830
below day = 45030

abbrev pub Near : ℕ → ℕ → Scale → Type 0
Near diff n s = (n * seconds s ≤ diff + above s) × (diff ≤ n * seconds s + below s)

-- The number and the scale that are shown.
abbrev shown : ℕ → ℕ × Scale
shown diff =
    let minutes : ℕ = (diff + 29) / 60 in
    let hours : ℕ = (minutes + 29) / 60 in
    let days : ℕ = (hours + 11) / 24 in
    if leb diff 2048
    then (diff, second)
    else if leb minutes 300
    then (minutes, minute)
    else if leb hours 96
    then (hours, hour)
    else (days, day)

shown-Near : (diff : ℕ) → Near diff (shown diff).0 (shown diff).1
shown-Near diff = ground arith

shown-short : (diff : ℕ) → diff < 2 ^ 31 → (shown diff).0 < 10 ^ 5
shown-short diff h = ground arith

prettyinterval-shown :
    (cb diff : ℕ)
    → 0 < diff
    → diff + 29 < 2 ^ 31
    → prettyinterval cb (pos diff) ≡ snprintf cb (decimal (shown diff).0 ++ suffix (shown diff).1)
unfolding prettyinterval print_minutes to_long
prettyinterval-shown cb diff h small =
    let sum : to_long ((diff + 29) % 2 ^ 32) ≡ pos (diff + 29) = ground arith in
    rw (sum, prettyinterval) (ground (arith, append-nil (decimal diff)))

shown-fits : (n : ℕ) (s : Scale) → n < 10 ^ 5 → length (decimal n ++ suffix s) ≤ 7
shown-fits n second h = omega (arith, length-append (decimal n) [], length-decimal n 4 h)
shown-fits n minute h = omega (arith, length-append (decimal n) (b'm' ∷ []), length-decimal n 4 h)
shown-fits n hour h = omega (arith, length-append (decimal n) (b'h' ∷ []), length-decimal n 4 h)
shown-fits n day h = omega (arith, length-append (decimal n) (b'd' ∷ []), length-decimal n 4 h)

-- An interval from 1 to 2^31-30 seconds is written whole into 8 bytes as a number and a unit
-- that are about half a unit from it at most.
pub prettyinterval-Near :
    (diff : ℕ)
    → 0 < diff
    → diff + 29 < 2 ^ 31
    → (n : ℕ) × (s : Scale) × (prettyinterval 8 (pos diff) ≡ decimal n ++ suffix s) × Near diff n s
prettyinterval-Near diff lo hi =
    let (n, s) = shown diff in
    (
      n,
      s,
      prettyinterval-shown 8 diff lo hi
          ∙ take-all 7 (decimal n ++ suffix s) (shown-fits n s (shown-short diff (omega arith))),
      shown-Near diff,
    )

-- The time that `since` is taken from.
abbrev pub last_time : Lfp → Lfp → ℕ
last_time rec reftime = if ltb 0 rec.l_ui then rec.l_ui else reftime.l_ui

since_cases :
    (ts rec reftime : Lfp)
    → ts.l_ui < 2 ^ 32
    → rec.l_ui < 2 ^ 32
    → reftime.l_ui < 2 ^ 32
    → let last = last_time rec reftime in
      (last ≡ 0 → since ts rec reftime ≡ pos 0)
      × (0 < last → last ≤ ts.l_ui → since ts rec reftime ≡ to_long (ts.l_ui - last))
      × (ts.l_ui < last → since ts rec reftime ≡ to_long (2 ^ 32 - (last - ts.l_ui)))
unfolding since
since_cases ts rec reftime h1 h2 h3 = (λ e. ground arith, λ p q. ground arith, λ p. ground arith)

-- For times of 32 bits, the time since the last packet is 0 with none; else it is the
-- difference of the two times, negative for a packet from the future, where that fits a long
-- of 32 bits, and 2^32 less or more where it does not.
pub since_lem :
    (ts rec reftime : Lfp)
    → ts.l_ui < 2 ^ 32
    → rec.l_ui < 2 ^ 32
    → reftime.l_ui < 2 ^ 32
    → let last = last_time rec reftime in
      since ts rec reftime ≡ (
        if last == 0
        then pos 0
        else if leb last ts.l_ui
        then (if ltb (ts.l_ui - last) (2 ^ 31)
            then pos (ts.l_ui - last)
            else negsuc (2 ^ 32 - (ts.l_ui - last) - 1))
        else if leb (last - ts.l_ui) (2 ^ 31)
        then negsuc (last - ts.l_ui - 1)
        else pos (2 ^ 32 - (last - ts.l_ui)))
unfolding to_long
since_lem ts rec reftime h1 h2 h3 =
    let (unset, past, future) = since_cases ts rec reftime h1 h2 h3 in
    ground (arith, unset, past, future)
