-- ===== src/Backup/Probe.antt =====
-- The header fillers and lcore_probe of backup/Hopa.c. Sleeping is left out.
use repath.Base.{
  ℕ, zero, suc, ◌+◌, ◌*◌, ◌^◌, ◌≤◌, ◌≡◌, refl, Bool, true, false, Option, some, List, [], ◌∷◌,
  Result, ok, ◌>>=◌, deref, to_u16, arith,
}
use repath.Dpdk.{
  Dpdk, IsDocumented, EthHdr, Ipv4Hdr, UdpHdr, Mbuf, ether_hdr_size, ipv4_hdr_size, udp_hdr_size,
  ipv4_addr,
}

-- A buffer; nothing is written behind the UDP header.
abbrev pub Pkt : Type 0
Pkt = Mbuf (Unit {0})

-- What happens to a buffer: rte_eth_tx_burst is offered it, and takes it or not; rte_pktmbuf_free
-- gives it back to the pool.
pub data Event : Type 0 where
  tx_burst : (m : Pkt) (taken : Bool) → Event
  pktmbuf_free : (m : Pkt) → Event

module _ (d : Dpdk (Unit {0})) where
  open d use {cpu_to_be_16, cpu_to_be_32, append}

  pub fill_ethernet_header : EthHdr → EthHdr
  fill_ethernet_header hdr = record hdr {
    s_addr = 0x08 ∷ 0xc0 ∷ 0xeb ∷ 0xbf ∷ 0xef ∷ 0x9a ∷ [];
    d_addr = 0x02 ∷ 0xb1 ∷ 0x04 ∷ 0x57 ∷ 0x76 ∷ 0x77 ∷ [];
    ether_type = cpu_to_be_16 0x0800;
  }

  pub fill_ipv4_header : Ipv4Hdr → Ipv4Hdr
  fill_ipv4_header hdr = record hdr {
    version_ihl = 4 * 2 ^ 4 + 5;
    type_of_service = 0;
    total_length = cpu_to_be_16 40;
    packet_id = cpu_to_be_16 5462;
    fragment_offset = cpu_to_be_16 0;
    time_to_live = 64;
    next_proto_id = 17;
    hdr_checksum = cpu_to_be_16 25295;
    src_addr = cpu_to_be_32 (ipv4_addr 192 168 200 2);
    dst_addr = cpu_to_be_32 (ipv4_addr 192 168 200 24);
  }

  pub fill_udp_header : UdpHdr → UdpHdr
  fill_udp_header hdr = record hdr {
    src_port = cpu_to_be_16 1234;
    dst_port = cpu_to_be_16 5678;
    dgram_len = cpu_to_be_16 20;
    dgram_cksum = cpu_to_be_16 0xffff;
  }

  -- The packet for path `i`. Neither the allocation nor the appends are tested.
  pub probe_mbuf : Option Pkt → ℕ → Result Pkt
  unfolding fill_ethernet_header fill_ipv4_header fill_udp_header
  probe_mbuf alloc i = do
    fresh ← deref alloc
    m ← deref (append fresh ether_hdr_size)
    let with_eth = record m { eth = fill_ethernet_header m.eth }
    m ← deref (append with_eth ipv4_hdr_size)
    let with_ipv4 = record m { ipv4 = fill_ipv4_header m.ipv4 }
    m ← deref (append with_ipv4 udp_hdr_size)
    let filled = fill_udp_header m.udp
    ok (record m { udp = record filled { dst_port = cpu_to_be_16 (to_u16 (5678 + i)) } })

  -- A round of lcore_probe, from path `i` with so many to go: `tx i` says whether the port takes
  -- the packet.
  pub lcore_probe_round : (ℕ → Option Pkt) → (ℕ → Bool) → ℕ → ℕ → Result (List Event)
  lcore_probe_round alloc tx i zero = ok []
  lcore_probe_round alloc tx i (suc rounds) = do
    m ← probe_mbuf (alloc i) i
    events ← lcore_probe_round alloc tx (i + 1) rounds
    ok (tx_burst m (tx i) ∷ pktmbuf_free m ∷ events)

-- How often the events give a buffer back: a port that takes one gives it back once it is sent.
pub releases : List Event → ℕ
releases [] = 0
releases (tx_burst m true ∷ events) = suc (releases events)
releases (tx_burst m false ∷ events) = releases events
releases (pktmbuf_free m ∷ events) = suc (releases events)

-- How many packets the port took in the rounds from `i` on.
pub taken_from : (ℕ → Bool) → ℕ → ℕ → ℕ
taken_from tx i zero = 0
taken_from tx i (suc rounds) = elim (tx i) [
  | true ↦ suc (taken_from tx (i + 1) rounds)
  | false ↦ taken_from tx (i + 1) rounds
]

module _ (d : Dpdk (Unit {0})) (doc : IsDocumented d) (room : 42 ≤ d.data_room) where
  -- The packet that is made of a fresh buffer.
  abbrev pub probe_pkt : Pkt → ℕ → Pkt
  probe_pkt m i = record {
    pkt_len = 42;
    eth = fill_ethernet_header d m.eth;
    ipv4 = fill_ipv4_header d m.ipv4;
    udp = record (fill_udp_header d m.udp) { dst_port = d.cpu_to_be_16 (to_u16 (5678 + i)) };
    cp = m.cp;
  }

  append_at :
      (m : Pkt) (k n : ℕ)
      → m.pkt_len ≡ k
      → k + n ≤ d.data_room
      → d.append m n ≡ some (record m { pkt_len = k + n })
  append_at m k n e h = rw (← e) (doc.append-room m n (omega arith))

  probe_mbuf-ok : (m : Pkt) (i : ℕ) → m.pkt_len ≡ 0 → probe_mbuf d (some m) i ≡ ok (probe_pkt m i)
  unfolding probe_mbuf
  probe_mbuf-ok m i e = rw (append_at m 0 14 e (omega arith)) (
      rw
        (append_at (record m { pkt_len = 14; eth = fill_ethernet_header d m.eth }) 14 20 refl
          (omega arith))
        (rw (
          append_at
            (record m {
              pkt_len = 34;
              eth = fill_ethernet_header d m.eth;
              ipv4 = fill_ipv4_header d m.ipv4;
            })
            34 8 refl (omega arith))))

  -- Every buffer of a round is given back once by the program, and once more by the port if it
  -- took it: with fresh buffers for all its packets a round returns, and the number of releases is
  -- the number of buffers and that of the packets sent together.
  pub backup_probe-releases :
      (fresh : ℕ → Pkt) (tx : ℕ → Bool) (i rounds : ℕ)
      → ((k : ℕ) → (fresh k).pkt_len ≡ 0)
      → (events : List Event) × (lcore_probe_round d (λ k. some (fresh k)) tx i rounds ≡ ok events)
        × (releases events ≡ rounds + taken_from tx i rounds)
  unfolding lcore_probe_round releases taken_from
  backup_probe-releases fresh tx i zero empty = ([], refl, refl)
  backup_probe-releases fresh tx i (suc rounds) empty =
      let (events, runs, count) = backup_probe-releases fresh tx (i + 1) rounds empty in
      (
        tx_burst (probe_pkt (fresh i) i) (tx i) ∷ pktmbuf_free (probe_pkt (fresh i) i) ∷ events,
        ground (arith, probe_mbuf-ok (fresh i) i (empty i), runs),
        ground (arith, count),
      )
