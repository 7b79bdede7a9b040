-- ===== src/Hopa.antt =====
-- repath_cp/src/hopa_cp.c and repath_cp/include/hopa_cp.h: the control plane as a program of its
-- own. `Packet` has the constants and header structs, `Encode` builds packets, `Paths` and `Check`
-- choose a path and the moment to change it, `Progress` has the handlers, `Lcore` the loops of the
-- two lcores and `Main` the command line and the loop that moves packets between port and rings.
pub mod Packet
pub mod Encode
pub mod Paths
pub mod Check
pub mod Progress
pub mod Lcore
pub mod Main
pub mod System
mod Examples
