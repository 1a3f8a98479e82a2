-- ===== src/Endian/Tests.antt =====
-- A machine that stores the highest byte first.
use jsntp_lcdd.Prelude.{◌-◌, ◌≡◌, ◌↔◌, arith}
use jsntp_lcdd.Prelude.Int.{pos}
use jsntp_lcdd.Endian.{get_endian, stored, Ordered, get_endian_lem}

get_endian_example :
    ((get_endian (stored (λ i. 3 - i)) ≡ pos 0) ↔ Ordered (λ i. 3 - i) (λ i. i))
    × ((get_endian (stored (λ i. 3 - i)) ≡ pos 1) ↔ Ordered (λ i. 3 - i) (λ i. 3 - i))
get_endian_example =
    get_endian_lem (λ i. 3 - i) (omega arith, omega arith, omega arith, omega arith)
