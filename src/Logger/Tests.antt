-- ===== src/Logger/Tests.antt =====
-- A concrete line of a logger below another.
use jsntp_lcdd.Prelude.{arith, ◌≡◌, refl, inl, ◌++◌}
use jsntp_lcdd.Prelude.Text.{codes}
use jsntp_lcdd.Logger.Defs.{stdout_out, info, Logger, root, child, put, printf}
use jsntp_lcdd.Logger.Chain.{prefixes, whole_line, printf-put}

abbrev lcd_logger : Logger
lcd_logger = child (child (root stdout_out) (codes "daemon")) (codes "lcd")

printf_example :
    printf lcd_logger info (codes "Nov 26 04:30:00 2016") (codes "ready")
    ≡ put stdout_out
        (whole_line info (codes "Nov 26 04:30:00 2016") (prefixes lcd_logger ++ codes "ready"))
printf_example =
    printf-put lcd_logger info (codes "Nov 26 04:30:00 2016") (codes "ready") (inl refl)
      (omega arith)
