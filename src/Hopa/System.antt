-- ===== src/Hopa/System.antt =====
-- The two cores of a receiver of hopa_cp.c at work on the same pair of rings: the loop of main and
-- lcore_stats, round by round, in any order.
pub mod Schedule
pub mod Delivery
use repath.Base.{ℕ, Bool, Option, some, List, [], ◌∷◌, ◌++◌, Result, ok, ◌>>=◌, and_then, deref}
use mathlib.Core.List.{flatten}
use repath.Hopa.Packet.{Pkt}
use repath.Hopa.Progress.{Answers, Platform}
use repath.Hopa.Lcore.{Stats, lcore_stats_round}
use repath.Hopa.Main.Forward.{Nic, main_round}

-- What the second core has, with the global variables, and what has left through the port.
pub record Node (Q : Type 0) : Type 0 where
  pub stats : Stats Q
  pub sent : List Pkt

-- A round of main, with the number of its first call of rte_eth_tx_burst and what
-- rte_eth_rx_burst returns, or a round of lcore_stats.
pub data Turn : Type 0 where
  main_turn : ℕ → List Pkt → Turn
  stats_turn : ℕ → Bool → (ℕ → Answers) → Turn

module _ {Q : Type 0} (pf : Platform Q) (nic : Nic) (fuel tenth : ℕ) where
  pub take_turn : Node Q → Turn → Result (Node Q)
  take_turn s (main_turn n received) = do
    (cp, sent) ← main_round pf nic fuel n received s.stats.cp
    bursts ← deref sent
    ok (record s { stats = record s.stats { cp = cp }; sent = s.sent ++ flatten bursts })
  take_turn s (stats_turn cur_tsc fires answers) = do
    stats ← lcore_stats_round pf tenth s.stats cur_tsc fires answers
    ok (record s { stats = stats })

  pub run : Node Q → List Turn → Result (Node Q)
  unfolding take_turn
  run s [] = ok s
  run s (turn ∷ turns) = do t ← take_turn s turn; run t turns
