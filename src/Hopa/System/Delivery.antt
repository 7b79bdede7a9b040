-- ===== src/Hopa/System/Delivery.antt =====
-- What the two cores do together: every packet that the incoming ring takes is handled and freed,
-- once and in the order of arrival, however the rounds are mixed.
use repath.Base.{ℕ, ◌+◌, ◌*◌, ◌≤◌, ◌≡◌, List, ◌++◌, length, min, ok}
use repath.Dpdk.{IsDocumented}
use repath.Dpdk.Ring.{IsRing}
use repath.Hopa.Packet.{burst_size, frame_bytes, Pkt}
use repath.Hopa.Progress.{Platform}
use repath.Hopa.Main.Forward.{Nic, IsNic}
use repath.Hopa.System.Schedule.{IsWorking, stats_turns, Arrived}
use repath.Hopa.System.{Node, Turn, run}

module _ {Q : Type 0} (pf : Platform Q) (doc : IsDocumented pf.dpdk)
    (room : frame_bytes ≤ pf.dpdk.data_room) (law : IsRing pf.ring) where
  module _ (nic : Nic) (good : IsNic nic) (tenth : ℕ) where
    -- What a schedule comes to: what was freed and what waits are what they were, and what has
    -- arrived in between; each round of lcore_stats frees a burst.
    record Delivered (s : Node Q) (w : IsWorking pf s) (turns : List Turn) : Type 0 where
      after : Node Q
      working : IsWorking pf after
      arrived : List Pkt
      returned : run pf nic (33 * good.patience) tenth s turns ≡ ok after
      arrivals : Arrived turns arrived
      kept :
          after.stats.freed ++ pf.ring.contents working.ring
          ≡ (s.stats.freed ++ pf.ring.contents w.ring) ++ arrived
      pace :
          length s.stats.freed
            + min (length (pf.ring.contents w.ring)) (burst_size * stats_turns turns)
          ≤ length after.stats.freed
