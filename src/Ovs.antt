-- ===== src/Ovs.antt =====
-- The control plane inside Open vSwitch: openvswitch-2.17.2-cq-dpu (the sender of probes) and
-- openvswitch-2.17.2-yy-dpu (the receiver), which differ in their addresses and in what the sending
-- thread sends. `Vswitchd` has the threads, `Datapath` the places in the datapath where their
-- packets enter and leave.
pub mod Packet
pub mod Encode
pub mod Vswitchd
pub mod Datapath
pub mod Meter
pub mod Sched
pub mod Dpcls
mod Examples
