-- ===== src/I2c.antt =====
-- JsEmbeddedUtils/I2CDevice.h and I2CDevice.cpp: the bus device behind the display.
-- The operating system is a parameter: `kernel` answers each system call, and may look at all the
-- calls before it. `errno` of a failed call is the number that the answer carries.
pub mod Descriptors
mod Tests
use jsntp_lcdd.Prelude.{ℕ, Option, none, some, List, [], ◌∷◌, map}

-- A result of `int` that is 1 or `-errno`.
pub data Status : Type 0 where
  ok : Status
  fail : (errno : ℕ) → Status

-- `struct i2c_msg`.
pub record Msg : Type 0 where
  pub addr : ℕ
  pub flags : ℕ
  pub buf : List ℕ

-- A file descriptor is `none` for -1.
pub data Request : Type 0 where
  open_bus : (path : List ℕ) → Request
  close_bus : (fd : ℕ) → Request
  set_slave : (fd : Option ℕ) (addr : ℕ) → Request
  rdwr : (fd : Option ℕ) (msgs : List Msg) → Request

pub data Answer : Type 0 where
  done : (value : ℕ) → Answer
  failed : (errno : ℕ) → Answer

-- What the program has asked of the system; a `usleep` has no answer that is read.
pub data Call : Type 0 where
  asked : Request → Answer → Call
  slept : (microseconds : ℕ) → Call

-- The newest call stands first.
pub record Device : Type 0 where
  pub dev_fd : Option ℕ
  pub slave_addr : ℕ
  pub calls : List Call

-- The constructor.
abbrev pub new_device : Device
new_device = record { dev_fd = none; slave_addr = 0; calls = [] }

unfoldable pub usleep : ℕ → Device → Device
usleep us d = record d { calls = slept us ∷ d.calls }

abbrev pub address_to : ℕ → Msg → Msg
address_to a m = record m { addr = a }

module _ (kernel : List Call → Request → Answer) where
  abbrev pub log : Request → Device → Device
  log r d = record d { calls = asked r (kernel d.calls r) ∷ d.calls }

  unfoldable pub bus_open : List ℕ → Device → record { 0 : Status; 1 : Device }
  bus_open path d =
      let r = open_bus path in
      elim (kernel d.calls r) [
        | done fd ↦ (ok, record (log r d) { dev_fd = some fd })
        | failed e ↦ (fail e, record (log r d) { dev_fd = none })
      ]

  unfoldable pub bus_close : Device → Device
  bus_close d = elim d.dev_fd [
    | none ↦ d
    | some fd ↦ record (log (close_bus fd) d) { dev_fd = none }
  ]

  unfoldable pub set_slave_id : ℕ → Device → record { 0 : Status; 1 : Device }
  set_slave_id addr d =
      let r = set_slave d.dev_fd addr in
      elim (kernel d.calls r) [
        | done v ↦ (ok, record (log r d) { slave_addr = addr })
        | failed e ↦ (fail e, log r d)
      ]

  -- The loop over the messages gives each one the slave's address.
  unfoldable pub transfer : List Msg → Device → record { 0 : Status; 1 : Device }
  transfer msgs d =
      let r = rdwr d.dev_fd (map (address_to d.slave_addr) msgs) in
      elim (kernel d.calls r) [ done v ↦ (ok, log r d) | failed e ↦ (fail e, log r d) ]

  -- The destructor.
  unfoldable pub drop_device : Device → Device
  unfolding bus_close
  drop_device d = bus_close d

unfoldable pub get_slave_id : Device → ℕ
get_slave_id d = d.slave_addr
