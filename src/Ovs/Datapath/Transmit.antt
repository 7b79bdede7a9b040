-- ===== src/Ovs/Datapath/Transmit.antt =====
-- Sending a batch, netdev_dpdk_eth_tx_burst of openvswitch-2.17.2-cq-dpu/netdev-dpdk.c. The loop
-- runs on fuel: each round but the last sends a packet.
pub mod Burst
use repath.Base.{
  ℕ, zero, suc, ◌+◌, ◌-◌, ◌≡◌, Bool, Option, none, some, List, [], ◌++◌, length, take, drop, to_u16,
  if◌then◌else◌, ◌==◌,
}

-- What becomes of a batch; `failed` is the return value.
pub record Transmitted {ℓ} (B : Type ℓ) : Type ℓ where
  pub sent : List B
  pub freed : List B
  pub failed : ℕ

-- What rte_eth_tx_prepare and the nth call of rte_eth_tx_burst answer.
pub record TxDevice {ℓ} (B : Type ℓ) : Type ℓ where
  pub userspace_tso_enabled : Bool
  pub tx_prepare : List B → ℕ
  pub tx_burst : ℕ → List B → ℕ

module _ {ℓ} {B : Type ℓ} (dev : TxDevice B) where
  -- The packets that the device takes, none if the fuel runs out.
  pub tx_rounds : ℕ → ℕ → List B → Option (List B)
  tx_rounds zero n pkts = if length pkts == 0 then some [] else none
  tx_rounds (suc fuel) n pkts =
      let ret = dev.tx_burst n pkts in
      let rest = tx_rounds fuel (n + 1) (drop ret pkts) in
      if length pkts == 0
      then some []
      else if ret == 0
      then some []
      else elim rest [ none ↦ none | some sent ↦ some (take ret pkts ++ sent) ]

  abbrev pub nb_tx_prep : List B → ℕ
  nb_tx_prep pkts =
      if dev.userspace_tso_enabled then to_u16 (dev.tx_prepare pkts) else to_u16 (length pkts)

  unfoldable pub netdev_dpdk_eth_tx_burst : ℕ → List B → Option (Transmitted B)
  unfolding tx_rounds
  netdev_dpdk_eth_tx_burst fuel pkts = elim (tx_rounds fuel 0 (take (nb_tx_prep pkts) pkts)) [
    | none ↦ none
    | some sent ↦ some (record {
      sent = sent;
      freed = drop (length sent) pkts;
      failed = length pkts - length sent;
    })
  ]
