-- ===== src/Port.antt =====
-- port_init, which repath_cp/src/hopa_cp.c, backup/Hopa.c and backup/main.c each have with other
-- numbers of queues. The Ethernet device is the outer world: it answers each call with a return
-- code, and the model keeps the calls made, in order.
pub mod Script
mod Examples
use repath.Base.{
  ℕ, zero, suc, ◌+◌, ◌-◌, Bool, true, false, List, [], ◌∷◌, ◌++◌, ℤ, pos, negsuc, is_neg,
  is_nonzero, if◌then◌else◌, not,
}

abbrev pub rx_ring_size : ℕ
rx_ring_size = 1024

abbrev pub tx_ring_size : ℕ
tx_ring_size = 1024

-- RTE_ETHER_MAX_LEN
abbrev pub ether_max_len : ℕ
ether_max_len = 1518

-- The calls of the rte_eth library for one port, with what of their arguments varies: `fast_free`
-- is the bit DEV_TX_OFFLOAD_MBUF_FAST_FREE of the transmit offloads.
pub data Call : Type 0 where
  info_get : Call
  configure : (rx_rings tx_rings max_rx_pkt_len : ℕ) (fast_free : Bool) → Call
  adjust_nb_rx_tx_desc : (nb_rxd nb_txd : ℕ) → Call
  rx_queue_setup : (q nb_rxd : ℕ) → Call
  tx_queue_setup : (q nb_txd : ℕ) (fast_free : Bool) → Call
  start : Call
  macaddr_get : Call
  promiscuous_enable : Call

pub record EthDev : Type 0 where
  pub is_valid_port : Bool
  pub answer : Call → ℤ
  -- tx_offload_capa & DEV_TX_OFFLOAD_MBUF_FAST_FREE, as rte_eth_dev_info_get reports it
  pub can_fast_free : Bool
  -- what rte_eth_dev_adjust_nb_rx_tx_desc makes of the two numbers of descriptors
  pub adjusted_rxd : ℕ
  pub adjusted_txd : ℕ

pub record PortConf : Type 0 where
  pub rx_rings : ℕ
  pub tx_rings : ℕ
  pub max_rx_pkt_len : ℕ

-- The return code of port_init and the calls that it made.
abbrev pub Init : Type 0
Init = ℤ × List Call

module _ (dev : EthDev) where
  -- A call, then the return of its code if that is an error, or else the rest.
  unfoldable pub call_or : (ℤ → Bool) → Call → Init → Init
  call_or is_error c rest =
      if is_error (dev.answer c) then (dev.answer c, c ∷ []) else (rest.0, c ∷ rest.1)

  -- The loops over the queues, from queue `q` with so many to go.
  unfoldable pub rx_queues : ℕ → ℕ → Init → Init
  unfolding call_or
  rx_queues q zero rest = rest
  rx_queues q (suc n) rest =
      call_or is_neg (rx_queue_setup q dev.adjusted_rxd) (rx_queues (q + 1) n rest)

  unfoldable pub tx_queues : ℕ → ℕ → Init → Init
  unfolding call_or
  tx_queues q zero rest = rest
  tx_queues q (suc n) rest =
      call_or is_neg (tx_queue_setup q dev.adjusted_txd dev.can_fast_free)
        (tx_queues (q + 1) n rest)

  unfoldable pub port_init : PortConf → Init
  unfolding rx_queues tx_queues
  port_init conf =
      if not dev.is_valid_port
      then (negsuc 0, [])
      else call_or is_nonzero info_get (
          call_or is_nonzero
            (configure conf.rx_rings conf.tx_rings conf.max_rx_pkt_len dev.can_fast_free)
            (call_or is_nonzero (adjust_nb_rx_tx_desc rx_ring_size tx_ring_size) (
              rx_queues 0 conf.rx_rings (
                tx_queues 0 conf.tx_rings (
                  call_or is_neg start (
                    call_or is_nonzero macaddr_get
                      (call_or is_nonzero promiscuous_enable (pos 0, []))))))))

-- The settings of the three programs.
abbrev pub hopa_cp_conf : PortConf
hopa_cp_conf = record { rx_rings = 1; tx_rings = 2; max_rx_pkt_len = ether_max_len }

abbrev pub backup_hopa_conf : PortConf
backup_hopa_conf = record { rx_rings = 1; tx_rings = 2; max_rx_pkt_len = ether_max_len }

abbrev pub backup_main_conf : PortConf
backup_main_conf = record { rx_rings = 1; tx_rings = 1; max_rx_pkt_len = 0 }
