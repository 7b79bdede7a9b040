-- ===== src/Ovs/Examples/Sending.antt =====
-- Sending a batch through a device that takes two packets at a call and then none.
use repath.Base.{
  ℕ, ◌≡◌, refl, true, some, List, [], ◌∷◌, ◌++◌, length, drop, min, ltb, arith, if◌then◌else◌,
}
use repath.Ovs.Datapath.Transmit.{Transmitted, TxDevice, nb_tx_prep, netdev_dpdk_eth_tx_burst}
use repath.Ovs.Datapath.Transmit.Burst.{IsTxDevice, IsStopped, netdev_dpdk_eth_tx_burst_lem}

abbrev device : TxDevice ℕ
device = record {
  userspace_tso_enabled = true;
  tx_prepare = λ pkts. 5;
  tx_burst = λ n pkts. if ltb n 2 then min 2 (length pkts) else 0;
}

abbrev pkts : List ℕ
pkts = 10 ∷ 11 ∷ 12 ∷ 13 ∷ 14 ∷ 15 ∷ []

device-IsTxDevice : IsTxDevice device
device-IsTxDevice n pkts = ground arith

-- Four of the five prepared packets are sent.
netdev_dpdk_eth_tx_burst_lem_example :
    (result : Transmitted ℕ) × (netdev_dpdk_eth_tx_burst device (length pkts) pkts ≡ some result)
    × (result.sent ++ result.freed ≡ pkts)
    × (result.failed ≡ length result.freed)
    × (left : List ℕ) × (result.freed ≡ left ++ drop (nb_tx_prep device pkts) pkts)
    × IsStopped device left
netdev_dpdk_eth_tx_burst_lem_example = netdev_dpdk_eth_tx_burst_lem device device-IsTxDevice pkts

netdev_dpdk_eth_tx_burst-test :
    netdev_dpdk_eth_tx_burst device 6 pkts
    ≡ some (record { sent = 10 ∷ 11 ∷ 12 ∷ 13 ∷ []; freed = 14 ∷ 15 ∷ []; failed = 2 })
unfolding netdev_dpdk_eth_tx_burst
netdev_dpdk_eth_tx_burst-test = refl
