-- ===== src/I2c/Descriptors.antt =====
-- What becomes of the file descriptors that a bus device opens.
use jsntp_lcdd.Prelude.{ℕ, suc, ◌+◌, ◌≡◌, none, some, List, [], ◌∷◌, arith}
use jsntp_lcdd.I2c.{
  Msg, Request, open_bus, close_bus, set_slave, rdwr, Answer, done, failed, Call, asked, slept,
  Device, new_device, bus_open, bus_close, set_slave_id, transfer, usleep, drop_device,
}

-- The operations of a device.
pub data Op : Type 0 where
  open_it : (path : List ℕ) → Op
  close_it : Op
  address_it : (addr : ℕ) → Op
  send_it : List Msg → Op
  rest_it : (microseconds : ℕ) → Op

-- Calls that opened a descriptor, and calls that closed one.
abbrev pub opened : List Call → ℕ
opened [] = 0
opened (asked (open_bus path) (done fd) ∷ older) = suc (opened older)
opened (asked (open_bus path) (failed e) ∷ older) = opened older
opened (asked (close_bus fd) a ∷ older) = opened older
opened (asked (set_slave fd addr) a ∷ older) = opened older
opened (asked (rdwr fd msgs) a ∷ older) = opened older
opened (slept us ∷ older) = opened older

abbrev pub closed : List Call → ℕ
closed [] = 0
closed (asked (open_bus path) a ∷ older) = closed older
closed (asked (close_bus fd) a ∷ older) = suc (closed older)
closed (asked (set_slave fd addr) a ∷ older) = closed older
closed (asked (rdwr fd msgs) a ∷ older) = closed older
closed (slept us ∷ older) = closed older

abbrev pub has_fd : Device → ℕ
has_fd d = elim d.dev_fd [ none ↦ 0 | some fd ↦ 1 ]

module _ (kernel : List Call → Request → Answer) where
  unfoldable pub perform : Op → Device → Device
  unfolding bus_open bus_close set_slave_id transfer usleep
  perform (open_it path) d = (bus_open kernel path d).1
  perform close_it d = bus_close kernel d
  perform (address_it addr) d = (set_slave_id kernel addr d).1
  perform (send_it msgs) d = (transfer kernel msgs d).1
  perform (rest_it us) d = usleep us d

  unfoldable pub perform_all : List Op → Device → Device
  unfolding perform
  perform_all [] d = d
  perform_all (op ∷ ops) d = perform_all ops (perform op d)

  -- How often a device is opened that has a descriptor already.
  abbrev pub reopened : Op → Device → ℕ
  reopened (open_it path) d = has_fd d
  reopened close_it d = 0
  reopened (address_it addr) d = 0
  reopened (send_it msgs) d = 0
  reopened (rest_it us) d = 0

  abbrev pub all_reopened : List Op → Device → ℕ
  all_reopened [] d = 0
  all_reopened (op ∷ ops) d = reopened op d + all_reopened ops (perform op d)

  perform_lem :
      (op : Op) (d : Device)
      → opened (perform op d).calls + closed d.calls + has_fd d
        ≡ opened d.calls + closed (perform op d).calls + has_fd (perform op d) + reopened op d
  unfolding perform
  perform_lem (open_it path) d = ground arith
  perform_lem close_it d = ground arith
  perform_lem (address_it addr) d = ground arith
  perform_lem (send_it msgs) d = ground arith
  perform_lem (rest_it us) d = ground arith

  perform_all_lem :
      (ops : List Op) (d : Device)
      → opened (perform_all ops d).calls + closed d.calls + has_fd d
        ≡ opened d.calls
          + closed (perform_all ops d).calls
          + has_fd (perform_all ops d)
          + all_reopened ops d
  unfolding perform_all
  perform_all_lem [] d = omega arith
  perform_all_lem (op ∷ ops) d = omega (arith, perform_lem op d, perform_all_lem ops (perform op d))

  drop_lem :
      (d : Device)
      → (opened (drop_device kernel d).calls ≡ opened d.calls)
        × (closed (drop_device kernel d).calls ≡ closed d.calls + has_fd d)
  unfolding drop_device bus_close
  drop_lem d = ground arith

  -- Whatever the system answers to any sequence of operations of a new device and its
  -- destructor, it has opened as many descriptors as it has closed, and one more for each time
  -- it was opened while it had one.
  pub descriptors_lem :
      (ops : List Op)
      → let d = drop_device kernel (perform_all ops new_device) in
        opened d.calls ≡ closed d.calls + all_reopened ops new_device
  descriptors_lem ops =
      let (o, c) = drop_lem (perform_all ops new_device) in
      omega (arith, o, c, perform_all_lem ops new_device)
