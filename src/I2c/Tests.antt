-- ===== src/I2c/Tests.antt =====
-- A device that is opened twice.
use jsntp_lcdd.Prelude.{◌+◌, ◌≡◌, List, [], ◌∷◌}
use jsntp_lcdd.Prelude.Text.{codes}
use jsntp_lcdd.I2c.{Call, Request, Answer, done, new_device, drop_device}
use jsntp_lcdd.I2c.Descriptors.{
  Op, open_it, close_it, opened, closed, perform_all, all_reopened, descriptors_lem,
}

abbrev granting : List Call → Request → Answer
granting calls r = done 3

abbrev twice : List Op
twice = open_it (codes "/dev/i2c-1") ∷ open_it (codes "/dev/i2c-1") ∷ close_it ∷ []

descriptors_example :
    opened (drop_device granting (perform_all granting twice new_device)).calls
    ≡ closed (drop_device granting (perform_all granting twice new_device)).calls
      + all_reopened granting twice new_device
descriptors_example = descriptors_lem granting twice
