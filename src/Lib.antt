-- ===== src/Lib.antt =====
-- Repath: the control plane of a host that watches four paths through the network, measures their
-- delays with probes, and asks its peer to change the path.
--
-- The parts of the program, and the modules that model them:
--
-- * repath_cp/src/hopa_cp.c with repath_cp/include/hopa_cp.h, a program on DPDK. Its main core
--   moves packets between the port and a pair of rings; its second core sends probes (lcore_probe)
--   or handles what arrives (lcore_stats). Port models port_init. Hopa.Packet has the constants and
--   structs, Hopa.Encode the packet builders, Hopa.Paths the delay table and get_min_delay_path_id,
--   Hopa.Check one_path_check, Hopa.Progress the global variables and the handlers of packets,
--   Hopa.Lcore one round of each function of the second core, Hopa.Main parse_args, the start of
--   main and one round of its loop, and Hopa.System the two cores of a receiver together: their
--   rounds in any order, over the same rings.
-- * openvswitch-2.17.2-cq-dpu and openvswitch-2.17.2-yy-dpu, the same control plane inside Open
--   vSwitch. Ovs.Packet has what dpif-netdev.h shares, Ovs.Encode the packet builders and
--   Ovs.Vswitchd the two threads of ovs-vswitchd.c, Ovs.Datapath the two places of the datapath
--   where control packets leave and enter it: dp_netdev_recirculate of dpif-netdev.c and
--   netdev_dpdk_rxq_recv of netdev-dpdk.c. Ovs.Datapath.Transmit is netdev_dpdk_eth_tx_burst of the
--   same file, which sends a batch. The trees differ in their addresses (cq and yy of Ovs.Packet)
--   and in the sending thread (hopa_cp_send and hopa_cp_send_repath of Ovs.Vswitchd). Ovs.Meter
--   models the meters of dpif-netdev.c: dp_netdev_run_meter in Ovs.Meter, their table in
--   Ovs.Meter.Table. Ovs.Sched models how receive queues come to the threads that poll them, in the
--   same file: Ovs.Sched has the nodes that sched_numa_list_populate builds, Ovs.Sched.Pick the
--   choice of a thread of a node (sched_pmd_next), Ovs.Sched.Assign sched_numa_list_schedule,
--   Ovs.Sched.Reconfigure rxq_scheduling and the steps of reconfigure_datapath that hand queues
--   over, Ovs.Sched.Balance the variance and the dry run of a rebalance. Ovs.Dpcls is the
--   classifier (dpcls_*) of the same file: Ovs.Dpcls has its operations, Ovs.Dpcls.Insert,
--   Ovs.Dpcls.Remove and Ovs.Dpcls.Reorder what they change, Ovs.Dpcls.Batch the lookup of a batch,
--   Ovs.Dpcls.Client the classifier as its users see it, a list of rules.
-- * backup, two earlier programs: Backup.Probe and Backup.Forward are the two cores of
--   backup/Hopa.c, Backup.Count is the counting core and the display of backup/main.c, and
--   Backup.Start has both main functions.
--
-- How the code corresponds to the model: a function of C is a function of the same name over an
-- explicit state, a record of the global variables. What a function can come to is a Result of
-- Base: a value, the end of the process, or undefined behaviour. What the outer world answers in
-- the course of a call (an allocation, the clock, the return code of a device) is an argument. One
-- round of an endless loop is a function; a burst is handled packet by packet, in order. Unsigned
-- integers are natural numbers whose wrap-around is written out.
--
-- DPDK is a parameter: byte order, checksums and appending in Dpdk.Api, rings in Dpdk.Ring, with
-- what its documentation says of them as IsDocumented and IsRing. Dpdk.Host and list_ring are
-- instances at which these hold. The double arithmetic of one_path_check is a parameter with the
-- bounds of IsWeigh.
--
-- The hash maps of Open vSwitch are lists in the order in which they are walked; hmap_insert is a
-- parameter that puts a node anywhere (IsHmap of Ovs.Sched). pvector_publish and the functions that
-- look a key up in one subtable are parameters too (IsPublish of Ovs.Dpcls.Laws, IsLookup of
-- Ovs.Dpcls.Client). qsort of the C library is an insertion sort. What threads do of their own
-- accord, reloading their queues, is a step relation: Move of Ovs.Sched.Reconfigure.Handover, of
-- which the functions of reconfigure_datapath are runs.
--
-- Fuel: the two loops that send a burst run on fuel. In tx_loop of Hopa.Main.Forward a port whose
-- queue is full takes no packet, but takes one within `patience` calls; a burst has at most 32
-- packets, so that fuel for 33 * patience calls is enough. tx_rounds of Ovs.Datapath.Transmit stops
-- at a call that takes nothing, so that as many calls as there are packets are enough. Every other
-- loop is over a list or a number of rounds: sched_pmd_next_noniso_rr takes the 2 * n_pmds rounds
-- of the source, and the search of another node as many as there are nodes.
--
-- Not modelled: output and logging (usage, print_hopa_param, hopa_log.h), sleeping, locks, the
-- interleaving of threads within a round, and the rest of Open vSwitch: the command line and the
-- bridge loop of ovs-vswitchd.c, and what else dpif-netdev.c and netdev-dpdk.c hold.
pub mod Base
pub mod Dpdk
pub mod Port
pub mod Hopa
pub mod Backup
pub mod Ovs
