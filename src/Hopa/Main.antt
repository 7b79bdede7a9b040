-- ===== src/Hopa/Main.antt =====
-- main of hopa_cp.c: the command line, the creation of the rings, and the loop that moves packets
-- between the port and the rings.
pub mod Args
pub mod Boot
pub mod Forward
