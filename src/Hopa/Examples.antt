-- ===== src/Hopa/Examples.antt =====
-- The theorems on hopa_cp.c at concrete inputs, and tests.
mod Setting
mod Encoding
mod Receiving
mod Checking
mod Running
mod Delivering
