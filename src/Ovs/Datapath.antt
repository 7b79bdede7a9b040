-- ===== src/Ovs/Datapath.antt =====
-- Where control packets meet the datapath of Open vSwitch: dp_netdev_recirculate in dpif-netdev.c
-- takes them out of a batch, and netdev_dpdk_rxq_recv in netdev-dpdk.c puts those of the sending
-- thread into one; netdev_dpdk_eth_tx_burst sends a batch. Statistics and logging are left out but for the count of dropped packets.
pub mod Recirculate
pub mod Receive
pub mod Transmit
