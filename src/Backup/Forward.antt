-- ===== src/Backup/Forward.antt =====
-- lcore_main of backup/Hopa.c: what a port receives goes out through its pair, or is freed.
use repath.Base.{
  ℕ, zero, suc, ◌+◌, ◌-◌, ◌%◌, ◌≤◌, ◌≡◌, refl, List, [], ◌∷◌, ◌++◌, take, drop, length, ◌==◌,
  if◌then◌else◌, arith, take-append-drop, ltb, length-take,
}
use repath.Backup.Probe.{Pkt}

-- What the ports do in a round: the packets that each one receives, and how many of so many it
-- takes for sending.
pub record Ports : Type 0 where
  pub rx_burst : ℕ → List Pkt
  pub tx_burst : ℕ → ℕ → ℕ

-- A port takes no more than it is offered.
pub record IsPorts (ports : Ports) : Type 0 where
  pub tx-le : (port k : ℕ) → ports.tx_burst port k ≤ k

-- What became of the packets of one port: where they went, which were sent, which were freed.
pub record Moved : Type 0 where
  pub from : ℕ
  pub to : ℕ
  pub sent : List Pkt
  pub freed : List Pkt

-- port ^ 1
abbrev pub paired : ℕ → ℕ
paired port = if port % 2 == 0 then port + 1 else port - 1

pub forward_port : Ports → ℕ → Moved
forward_port ports port =
    let bufs = ports.rx_burst port in
    let nb_tx = ports.tx_burst (paired port) (length bufs) in
    record {
      from = port;
      to = paired port;
      sent = take nb_tx bufs;
      freed = if ltb nb_tx (length bufs) then drop nb_tx bufs else [];
    }

-- for (port = 0; port < 2; port++), from `port` on with so many to go.
pub forward_from : Ports → ℕ → ℕ → List Moved
forward_from ports port zero = []
forward_from ports port (suc rounds) =
    forward_port ports port ∷ forward_from ports (port + 1) rounds

pub lcore_main_round : Ports → List Moved
unfolding forward_from
lcore_main_round ports = forward_from ports 0 2

drop_whole : (n : ℕ) (xs : List Pkt) → length xs ≤ n → drop n xs ≡ []
drop_whole zero [] h = refl
drop_whole (suc n) [] h = refl
drop_whole zero (x ∷ xs) h = absurd (omega arith)
drop_whole (suc n) (x ∷ xs) h = drop_whole n xs (omega arith)

paired_twice : (port : ℕ) → paired (paired port) ≡ port
paired_twice port = grind arith

-- Of the packets that a port receives, some go to the paired port and the rest are freed: none is
-- lost, and none is both sent and freed. The pair of the pair is the port itself.
record Split (ports : Ports) (port : ℕ) (moved : Moved) : Type 0 where
  from_port : moved.from ≡ port
  back : paired moved.to ≡ port
  whole : moved.sent ++ moved.freed ≡ ports.rx_burst port
  count : length moved.sent ≡ ports.tx_burst moved.to (length (ports.rx_burst port))

forward_port-Split :
    (ports : Ports) (good : IsPorts ports) (port : ℕ) → Split ports port (forward_port ports port)
unfolding forward_port
forward_port-Split ports good port =
    let bufs = ports.rx_burst port in
    let n = ports.tx_burst (paired port) (length bufs) in
    record {
      from_port = refl;
      back = paired_twice port;
      whole = ground (arith, take-append-drop n bufs, drop_whole n bufs);
      count = omega (arith, length-take n bufs, good.tx-le (paired port) (length bufs));
    }

-- A round serves the ports 0 and 1, in order, if no port takes more than it is offered. Of the
-- packets that each receives, the first go out through the other port, as many as it takes, and
-- the rest are freed: none is lost, and none is both sent and freed.
pub backup_lcore_main_round_lem :
    (ports : Ports) (good : IsPorts ports)
    → (zeroth : Moved) × (first : Moved) × (lcore_main_round ports ≡ zeroth ∷ first ∷ [])
      × (zeroth.to ≡ 1)
      × (zeroth.sent ++ zeroth.freed ≡ ports.rx_burst 0)
      × (length zeroth.sent ≡ ports.tx_burst 1 (length (ports.rx_burst 0)))
      × (first.to ≡ 0)
      × (first.sent ++ first.freed ≡ ports.rx_burst 1)
      × (length first.sent ≡ ports.tx_burst 0 (length (ports.rx_burst 1)))
unfolding lcore_main_round forward_port
backup_lcore_main_round_lem ports good =
    let s = forward_port-Split ports good 0 in
    let t = forward_port-Split ports good 1 in
    (
      forward_port ports 0,
      forward_port ports 1,
      refl,
      refl,
      s.whole,
      s.count,
      refl,
      t.whole,
      t.count,
    )
