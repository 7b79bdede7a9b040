-- ===== src/Ovs/Datapath/Recirculate.antt =====
-- dp_netdev_recirculate of dpif-netdev.c. The batch goes on to dp_netdev_input__, which is the
-- datapath's own work: the model returns what it is given.
pub mod Select
use repath.Base.{
  ℕ, zero, suc, ◌+◌, Bool, true, false, ◌&&◌, Option, none, some, List, [], ◌∷◌, ◌++◌, Result, ok,
  ◌>>=◌, ◌>>◌, deref, defined, ltb, ◌==◌, if◌then◌else◌, length,
}
use repath.Dpdk.{Dpdk, ether_hdr_size, ipv4_hdr_size, udp_hdr_size, ether_type_ipv4, ipproto_udp}
use repath.Dpdk.Ring.{RingOps}
use repath.Ovs.Packet.{src_port, HopaCpHdr, hopa_cp_hdr_size, Pkt, InOutRing, Cp}
use repath.Ovs.Vswitchd.{Platform}

-- The length of the array hopa_cp_recv_cp_hdr.
abbrev pub recv_slots : ℕ
recv_slots = 32

module _ {I O : Type 0} (pf : Platform I O) where
  -- The tests that tell a control packet from the others.
  pub is_control : Pkt → Bool
  is_control pkt =
      if pkt.eth.ether_type == pf.dpdk.cpu_to_be_16 ether_type_ipv4
      then if pkt.ipv4.next_proto_id == ipproto_udp
        then (pf.dpdk.be_to_cpu_16 pkt.udp.dgram_len == udp_hdr_size + hopa_cp_hdr_size)
          && ((pf.dpdk.be_to_cpu_16 pkt.udp.src_port == 4444)
              && (pkt.pkt_len
                  == ether_hdr_size + (ipv4_hdr_size + (udp_hdr_size + hopa_cp_hdr_size))))
        else false
      else false

  -- The loop over the batch: the headers copied so far, and whether rte_malloc has memory for each
  -- further one. A header that does not fit in the array, or for which there is no memory, is
  -- written where nothing may be written.
  pub collect : (ℕ → Bool) → List HopaCpHdr → List Pkt → Result (List HopaCpHdr)
  collect malloc hdrs [] = ok hdrs
  collect malloc hdrs (pkt ∷ pkts) =
      let copied = do
        defined (ltb (length hdrs) recv_slots)
        defined (malloc (length hdrs))
        collect malloc (hdrs ++ (pkt.cp ∷ [])) pkts
      in let passed = collect malloc hdrs pkts in if is_control pkt then copied else passed

  -- What is done with the headers: they go to the incoming ring, as far as it takes them.
  pub hand_over : Cp I O → InOutRing I O → I → List HopaCpHdr → Cp I O
  hand_over s rings q [] = s
  hand_over s rings q (hdr ∷ hdrs) = record s {
    m_hopa_cp_in_out_ring =
        some (record rings { hopa_cp_in_ring = some (pf.in_ops.enqueue_burst q (hdr ∷ hdrs)).1 });
  }

  -- The state, and the batch that dp_netdev_input__ gets.
  pub dp_netdev_recirculate : (ℕ → Bool) → Cp I O → List Pkt → Result (Cp I O × List Pkt)
  unfolding hand_over
  dp_netdev_recirculate malloc s packets = elim s.m_hopa_cp_in_out_ring [
    | none ↦ ok (s, packets)
    | some rings ↦ elim rings.hopa_cp_in_ring [
      | none ↦ ok (s, packets)
      | some q ↦ (collect malloc [] packets >>= λ hdrs. ok (hand_over s rings q hdrs, packets))
    ]
  ]
