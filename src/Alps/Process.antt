-- ===== src/Alps/Process.antt =====
-- The packet handlers of VoodooPS2Trackpad/alps.cpp, from a packet to the calls that they make, and
-- the call through the pointer `process_packet`.
pub mod V1V2
pub mod V3
pub mod V4
pub mod V6
pub mod V7
pub mod Ss4
pub mod Pair
pub mod Reports
use voodoo_ps2_alps.Base.{ℕ, List, [], Option, none, some}
use voodoo_ps2_alps.Alps.Types.{
  Driver, Action, Handled, ProcessPacket, process_null, process_v1_v2, process_v3,
  process_touchpad_v3_v5, process_v4, process_v7, process_ss4_v2,
}
use V1V2.{alps_process_packet_v1_v2}
use V3.{alps_process_packet_v3, alps_process_touchpad_packet_v3_v5}
use V4.{alps_process_packet_v4}
use V7.{alps_process_packet_v7}
use Ss4.{alps_process_packet_ss4_v2}

-- The handler that a pointer stands for; `none` is a call through a null pointer, a crash.
unfoldable pub process_by : ProcessPacket → Driver → List ℕ → Option Handled
process_by process_null d packet = none
process_by process_v1_v2 d packet = some (alps_process_packet_v1_v2 d packet)
process_by process_v3 d packet = some (alps_process_packet_v3 d packet)
process_by process_touchpad_v3_v5 d packet = some (alps_process_touchpad_packet_v3_v5 d packet)
process_by process_v4 d packet = some (alps_process_packet_v4 d packet)
process_by process_v7 d packet = some (alps_process_packet_v7 d packet)
process_by process_ss4_v2 d packet = some (alps_process_packet_ss4_v2 d packet)

-- `(this->*process_packet)(packet)`
unfoldable pub process : Driver → List ℕ → Option Handled
unfolding process_by
process d packet = process_by d.process_packet d packet
