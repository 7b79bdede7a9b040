-- ===== src/Backup/Count.antt =====
-- lcore_main, stats_display and create_hash_table of backup/main.c. What is printed is the outcome.
use repath.Base.{
  ℕ, ◌+◌, Option, none, some, List, [], ◌∷◌, ◌++◌, Result, ok, ◌==◌, if◌then◌else◌, length, add64,
  sub64, or_exit,
}
use repath.Dpdk.{Dpdk}
use repath.Backup.Probe.{Pkt}

-- v4_tuple; the two ports of a TCP or UDP header lie at the same place.
pub record V4Tuple : Type 0 where
  pub src_addr : ℕ
  pub dst_addr : ℕ
  pub sport : ℕ
  pub dport : ℕ

-- The globals `total` and `total_last`, the local ipv4_tuple, and the buffers freed so far.
pub record Counter : Type 0 where
  pub total : ℕ
  pub total_last : ℕ
  pub ipv4_tuple : V4Tuple
  pub freed : List Pkt

-- rte_hash_find_existing, or else rte_hash_create, without which the process exits.
pub create_hash_table : {T : Type 0} → Option T → Option T → Result T
create_hash_table found created = elim found [ some table ↦ ok table | none ↦ or_exit created ]

-- rte_be_to_cpu_32 is a parameter of its own.
module _ (d : Dpdk (Unit {0})) (be_to_cpu_32 : ℕ → ℕ) where
  -- The tuple after a packet: another protocol than TCP and UDP leaves the ports of an earlier one.
  pub read_tuple : V4Tuple → Pkt → V4Tuple
  read_tuple t m =
      let addressed = record t {
        src_addr = be_to_cpu_32 m.ipv4.src_addr;
        dst_addr = be_to_cpu_32 m.ipv4.dst_addr;
      } in
      let with_ports = record addressed {
        sport = d.be_to_cpu_16 m.udp.src_port;
        dport = d.be_to_cpu_16 m.udp.dst_port;
      } in
      if m.ipv4.next_proto_id == 6
      then with_ports
      else if m.ipv4.next_proto_id == 17
      then with_ports
      else addressed

  -- The loop over a burst.
  pub read_burst : Counter → List Pkt → Counter
  unfolding read_tuple
  read_burst c [] = c
  read_burst c (m ∷ bufs) =
      read_burst (record c { ipv4_tuple = read_tuple c.ipv4_tuple m; freed = c.freed ++ (m ∷ []) })
        bufs

  -- The work for one port of a round.
  pub count_port : Counter → List Pkt → Counter
  unfolding read_burst
  count_port c bufs =
      if length bufs == 0
      then c
      else read_burst (record c { total = add64 c.total (length bufs) }) bufs

-- stats_display: the number shown, and the counter afterwards. timer_callback has its call in a
-- comment.
pub stats_display : Counter → ℕ × Counter
stats_display c = (sub64 c.total c.total_last, record c { total_last = c.total })

-- The two threads by turns: a burst of some port, or a display.
pub data Turn : Type 0 where
  burst : (bufs : List Pkt) → Turn
  display : Turn

-- How many packets arrive in a sequence of turns, and which.
unfoldable pub arrived : List Turn → List Pkt
arrived [] = []
arrived (burst bufs ∷ turns) = bufs ++ arrived turns
arrived (display ∷ turns) = arrived turns

module _ (d : Dpdk (Unit {0})) (be_to_cpu_32 : ℕ → ℕ) where
  -- The sum of the numbers shown, and the counter at the end.
  pub take_turns : Counter → List Turn → ℕ × Counter
  take_turns c [] = (0, c)
  take_turns c (burst bufs ∷ turns) = take_turns (count_port d be_to_cpu_32 c bufs) turns
  take_turns c (display ∷ turns) =
      let (shown, c') = stats_display c in
      let (sum, end) = take_turns c' turns in (shown + sum, end)
