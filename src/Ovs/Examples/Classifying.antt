-- ===== src/Ovs/Examples/Classifying.antt =====
-- The theorems on the classifier at concrete inputs.
use repath.Base.{
  ℕ, ◌≡◌, ◌<◌, refl, Bool, true, none, some, List, [], ◌∷◌, ok, arith, if◌then◌else◌, Option, All,
  ◌==◌, countp, total, leb, Bool-cases, inl, inr,
}
use repath.Ovs.Dpcls.{
  FlowKey, Rule, Subtable, LookupState, same_rule, dpcls_rule_matches_key, dpcls_lookup, is_open,
}
use repath.Ovs.Dpcls.Laws.{IsPublish, netdev_flow_key_equal_refl}
use repath.Ovs.Dpcls.Batch.{answers, place, dpcls_lookup-search}
use repath.Ovs.Dpcls.Client.{
  IsLookup, Change, inserted, removed, reordered, bag_after, Answers, run_changes,
  dpcls_lookup-bag_after,
}

-- A vector that is sorted by falling priorities.
place_in : Subtable → List Subtable → List Subtable
place_in t [] = t ∷ []
place_in t (u ∷ us) =
    let rest = place_in t us in if leb u.priority t.priority then t ∷ (u ∷ us) else u ∷ rest

abbrev by_priority : List Subtable → List Subtable
by_priority [] = []
by_priority (t ∷ ts) = place_in t (by_priority ts)

countp-place_in :
    (p : Subtable → Bool) (t : Subtable) (ts : List Subtable)
    → countp p (place_in t ts) ≡ countp p (t ∷ ts)
unfolding place_in
countp-place_in p t [] = refl
countp-place_in p t (u ∷ us) = ground (arith, countp-place_in p t us)

total-place_in :
    (f : Subtable → ℕ) (t : Subtable) (ts : List Subtable)
    → total f (place_in t ts) ≡ total f (t ∷ ts)
unfolding place_in
total-place_in f t [] = refl
total-place_in f t (u ∷ us) = ground (arith, total-place_in f t us)

countp-by_priority :
    (p : Subtable → Bool) (ts : List Subtable) → countp p (by_priority ts) ≡ countp p ts
countp-by_priority p [] = refl
countp-by_priority p (t ∷ ts) =
    omega (arith, countp-place_in p t (by_priority ts), countp-by_priority p ts)

total-by_priority : (f : Subtable → ℕ) (ts : List Subtable) → total f (by_priority ts) ≡ total f ts
total-by_priority f [] = refl
total-by_priority f (t ∷ ts) =
    omega (arith, total-place_in f t (by_priority ts), total-by_priority f ts)

by_priority-IsPublish : IsPublish by_priority
by_priority-IsPublish = record {
  countp_publish = countp-by_priority;
  total_publish = total-by_priority;
}

-- A function of a subtable that tries the rules in turn.
abbrev first_match : List Rule → FlowKey → Option Rule
first_match [] key = none
first_match (r ∷ rs) key = if dpcls_rule_matches_key r key then some r else first_match rs key

abbrev scan : Subtable → FlowKey → Option Rule
scan t key = first_match t.rules key

first_match_sound :
    (rs : List Rule) (key : FlowKey) (r : Rule)
    → first_match rs key ≡ some r
    → (dpcls_rule_matches_key r key ≡ true) × (0 < countp (same_rule r) rs)
first_match_sound [] key r e = cc
first_match_sound (s ∷ rs) key r e = elim (Bool-cases (dpcls_rule_matches_key s key)) [
  | inl m ↦
      let same : s ≡ r = ground (arith, m, e) in
      (cc (m, same), ground (arith, same, netdev_flow_key_equal_refl s.mask))
  | inr n ↦
      let rest = first_match_sound rs key r (ground (arith, n, e)) in
      (rest.0, omega (arith, rest.1))
]

first_match_complete :
    (rs : List Rule) (key : FlowKey)
    → first_match rs key ≡ none
    → countp (λ r. dpcls_rule_matches_key r key) rs ≡ 0
first_match_complete [] key e = refl
first_match_complete (s ∷ rs) key e = elim (Bool-cases (dpcls_rule_matches_key s key)) [
  | inl m ↦ ground (arith, m, e)
  | inr n ↦ let rest = first_match_complete rs key (ground (arith, n, e)) in ground (arith, n, rest)
]

scan-IsLookup : IsLookup scan
scan-IsLookup = record {
  sound = λ t key r e. first_match_sound t.rules key r e;
  complete = λ t key e. first_match_complete t.rules key e;
}

-- Two masks, of one unit and of two, and rules for them.
abbrev coarse : FlowKey
coarse = record { hash = 1; units = record { index = 0; value = 240 } ∷ [] }

abbrev fine : FlowKey
fine = record {
  hash = 2;
  units = record { index = 0; value = 255 } ∷ record { index = 3; value = 15 } ∷ [];
}

abbrev wide : Rule
wide = record { id = 7; mask = coarse; flow = record { index = 0; value = 16 } ∷ [] }

abbrev narrow : Rule
narrow = record {
  id = 8;
  mask = fine;
  flow = record { index = 0; value = 33 } ∷ record { index = 3; value = 4 } ∷ [];
}

abbrev gone : Rule
gone = record { id = 9; mask = coarse; flow = record { index = 0; value = 32 } ∷ [] }

abbrev target : ℕ → ℕ → FlowKey
target a b = record {
  hash = a;
  units = record { index = 0; value = a } ∷ record { index = 3; value = b } ∷ [];
}

abbrev history : List Change
history =
    inserted gone coarse
    ∷ inserted narrow fine
    ∷ inserted wide coarse
    ∷ reordered
    ∷ removed gone
    ∷ []

abbrev targets : List FlowKey
targets = target 21 0 ∷ target 33 20 ∷ target 32 4 ∷ []

abbrev full_table : List Subtable
full_table =
    record { mask = fine; rules = narrow ∷ []; hit_cnt = 0; priority = 0 }
    ∷ record { mask = coarse; rules = wide ∷ []; hit_cnt = 0; priority = 0 }
    ∷ []

-- Both rules are found, of the first subtable and of the second.
dpcls_lookup-search_example :
    dpcls_lookup scan full_table targets
    ≡ ok (record {
      slots = answers scan full_table targets;
      lookups_match = total (place scan 1 full_table) targets;
      all_found = countp is_open (answers scan full_table targets) == 0;
    })
dpcls_lookup-search_example =
    dpcls_lookup-search scan full_table targets (omega arith) (omega arith)

dpcls_lookup-bag_after_example :
    (state : LookupState) × (dpcls_lookup scan (run_changes by_priority [] history) targets
      ≡ ok state)
    × All (λ slot. Answers (bag_after [] history) slot.key slot.rule) state.slots
dpcls_lookup-bag_after_example =
    dpcls_lookup-bag_after by_priority scan by_priority-IsPublish scan-IsLookup history targets
      (omega arith) (omega arith)

answers-test :
    answers scan full_table targets
    ≡ record { key = target 21 0; rule = some wide }
      ∷ record { key = target 33 20; rule = some narrow }
      ∷ record { key = target 32 4; rule = none }
      ∷ []
unfolding dpcls_rule_matches_key
answers-test = refl
