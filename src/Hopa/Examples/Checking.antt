-- ===== src/Hopa/Examples/Checking.antt =====
-- The search for the best path and the check of the current one.
use repath.Base.{◌≡◌, ◌↔◌, refl, [], ◌∷◌, fault, sub64, ◌%◌, ◌^◌, arith}
use repath.Hopa.Paths.{get_min_delay_path_id}
use repath.Hopa.Paths.Minimum.{IsFirstMin, get_min_delay_path_id-IsFirstMin}
use repath.Hopa.Check.{CurPathInfo, one_path_check}
use repath.Hopa.Check.Verdict.{one_path_check-fault}
use repath.Hopa.Examples.Setting.{seven_tenths, info}

best_of_four : get_min_delay_path_id (9 ∷ 4 ∷ 7 ∷ 4 ∷ []) 4 ≡ 1
unfolding get_min_delay_path_id
best_of_four = refl

-- A path that was never probed wins over one with more than 3.3 seconds of delay.
never_probed : get_min_delay_path_id (4294967296 ∷ 0xFFFFFFFF ∷ 4294967297 ∷ 4294967298 ∷ []) 4 ≡ 1
unfolding get_min_delay_path_id
never_probed = refl

get_min_delay_path_id-IsFirstMin_example :
    IsFirstMin (9 ∷ 4 ∷ 7 ∷ 4 ∷ []) 4 (get_min_delay_path_id (9 ∷ 4 ∷ 7 ∷ 4 ∷ []) 4)
get_min_delay_path_id-IsFirstMin_example =
    get_min_delay_path_id-IsFirstMin (9 ∷ 4 ∷ 7 ∷ 4 ∷ []) 4 (omega arith)

-- The delay falls from 13 µs to 10.1 µs.
abbrev falling : CurPathInfo
falling = record info { cur_dt = 10100 }

-- A steady delay of 13 µs, and samples that are 10 µs apart.
abbrev steady : CurPathInfo
steady = record info { cur_dt = 13000; cur_ts = 12000 }

one_path_check-fault_example :
    (one_path_check seven_tenths info ≡ fault) ↔ (sub64 3000 2000 % 2 ^ 63 ≡ 0)
one_path_check-fault_example = one_path_check-fault seven_tenths info
