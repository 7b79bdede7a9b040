-- ===== src/Hopa/Paths.antt =====
-- get_min_delay_path_id of hopa_cp.c, and the table of delays that it reads.
pub mod Minimum
use repath.Base.{
  ℕ, zero, suc, ◌+◌, ◌-◌, List, [], ◌∷◌, Result, ok, fault, ltb, length, get_or, set, if◌then◌else◌,
}

-- The initial all_paths_delay_list.
abbrev pub no_delays : List ℕ
no_delays = 0xFFFFFFFF ∷ 0xFFFFFFFF ∷ 0xFFFFFFFF ∷ 0xFFFFFFFF ∷ []

-- The loop from `i` with so many rounds left.
unfoldable pub min_delay_from : List ℕ → ℕ → ℕ → ℕ → ℕ
min_delay_from delays zero i path_id = path_id
min_delay_from delays (suc rounds) i path_id =
    min_delay_from delays rounds (i + 1)
      (if ltb (get_or delays i 0) (get_or delays path_id 0) then i else path_id)

unfoldable pub get_min_delay_path_id : List ℕ → ℕ → ℕ
unfolding min_delay_from
get_min_delay_path_id all_paths_delay_list length =
    min_delay_from all_paths_delay_list (length - 1) 1 0

-- all_paths_delay_list[path_id] = delay; a write outside of the array is undefined.
unfoldable pub store_delay : List ℕ → ℕ → ℕ → Result (List ℕ)
store_delay delays path_id delay =
    if ltb path_id (length delays) then ok (set delays path_id delay) else fault
