-- ===== src/Port/Examples.antt =====
-- port_init at a device whose second receive queue cannot be set up.
use repath.Base.{◌≡◌, refl, true, false, ◌⊎◌, [], ◌∷◌, ℤ, pos, negsuc, ◌==◌, if◌then◌else◌}
use repath.Port.{
  Call, info_get, configure, adjust_nb_rx_tx_desc, rx_queue_setup, EthDev, PortConf, port_init,
  rx_queues, tx_queues, call_or,
}
use repath.Port.Script.{script, Ended, port_init-Ended}

abbrev answer : Call → ℤ
answer (rx_queue_setup q n) = if q == 1 then negsuc 4 else pos 2
answer c = pos 0

abbrev dev : EthDev
dev = record {
  is_valid_port = true;
  answer = answer;
  can_fast_free = true;
  adjusted_rxd = 512;
  adjusted_txd = 1024;
}

abbrev conf : PortConf
conf = record { rx_rings = 2; tx_rings = 2; max_rx_pkt_len = 1518 }

-- The calls up to the failure, and the code -5.
port_init_fails : port_init dev conf ≡ (
  negsuc 4,
  info_get
      ∷ configure 2 2 1518 true
      ∷ adjust_nb_rx_tx_desc 1024 1024
      ∷ rx_queue_setup 0 512
      ∷ rx_queue_setup 1 512
      ∷ [],
)
unfolding port_init rx_queues tx_queues call_or
port_init_fails = refl

port_init-Ended_example :
    ((true ≡ false) × (port_init dev conf ≡ (negsuc 0, [])))
    ⊎ ((true ≡ true) × Ended dev (script dev conf) (port_init dev conf))
port_init-Ended_example = port_init-Ended dev conf
