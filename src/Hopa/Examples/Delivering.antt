-- ===== src/Hopa/Examples/Delivering.antt =====
-- The two cores of a receiver at work together, at a concrete schedule.
use repath.Base.{refl, false, List, [], ◌∷◌, inl, arith}
use repath.Hopa.Packet.{Pkt}
use repath.Hopa.System.{Node, Turn, main_turn, stats_turn}
use repath.Hopa.System.Schedule.{IsWorking}
use repath.Hopa.Examples.Setting.{stale, pf, answers}
use repath.Hopa.Examples.Running.{before, one_waits-IsValid, one_waits-IsReady}

abbrev node : Node (List Pkt)
node = record { stats = before; sent = [] }

unfoldable node-IsWorking : IsWorking pf node
node-IsWorking = record {
  ring = stale ∷ [];
  ready = one_waits-IsReady;
  valid = one_waits-IsValid;
  has_ring = refl;
  named = (inl (omega arith), tt);
}

-- Two packets arrive, the second core works, and another packet arrives.
abbrev schedule : List Turn
schedule =
    main_turn 0 (stale ∷ stale ∷ [])
    ∷ stats_turn 5 false (λ i. answers)
    ∷ main_turn 1 (stale ∷ [])
    ∷ []
