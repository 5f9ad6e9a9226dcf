-- ===== src/Alps/Identify/Protocols.antt =====
-- The decision of `identify`: its conditions exclude each other, and so do the rows of the table.
use voodoo_ps2_alps.Base.{◌+◌, ◌≤◌, arith, of_bool}
use voodoo_ps2_alps.Alps.Command.{AlpsStatus}
use voodoo_ps2_alps.Alps.Identify.{is_v5, is_v7, is_v3_rushmore, is_v3, is_v8, is_v8_flare}

-- Whatever the reports are, at most one of the six conditions by which `identify` chooses a
-- protocol holds, so their order decides nothing.
pub protocols_exclusive :
    (e7 ec : AlpsStatus)
    → of_bool (is_v5 e7 ec)
        + of_bool (is_v7 ec)
        + of_bool (is_v3_rushmore ec)
        + of_bool (is_v3 ec)
        + of_bool (is_v8 e7 ec)
        + of_bool (is_v8_flare e7 ec)
      ≤ 1
unfolding is_v5 is_v7 is_v3_rushmore is_v3 is_v8 is_v8_flare
protocols_exclusive e7 ec = ground arith
