-- ===== src/Ovs/Examples.antt =====
-- The control plane inside Open vSwitch at concrete inputs.
mod Setting
mod Threads
mod Path
mod Metering
mod Scheduling
mod Classifying
mod Sending
