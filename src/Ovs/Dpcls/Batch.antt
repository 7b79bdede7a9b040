-- ===== src/Ovs/Dpcls/Batch.antt =====
-- dpcls_lookup looks a batch of keys up subtable by subtable and returns as soon as every key has
-- its rule. Here it is compared with the lookup of the keys one by one.
use repath.Base.{
  ℕ, suc, ◌+◌, ◌-◌, ◌*◌, ◌≤◌, ◌<◌, ◌≡◌, refl, sym, ap, true, ◌&&◌, Option, none, some, List, [],
  ◌∷◌, length, countp, total, arith, ◌==◌, ◌∙◌, ltb, leb, ok, defined, ◌>>◌, Bool-cases,
  Option-cases, inl, inr,
}
use mathlib.Core.Path.{subst}
use repath.Ovs.Dpcls.{
  FlowKey, Rule, Subtable, Slot, LookupState, fill, fill_all, is_open, lookup_from, empty_slots,
  dpcls_lookup,
}

mul_suc : (n pos : ℕ) → suc n * pos ≡ pos + n * pos
mul_suc n pos = omega arith

module _ (lookup_func : Subtable → FlowKey → Option Rule) where
  -- The rule of the first subtable that has one for the key.
  abbrev pub search : List Subtable → FlowKey → Option Rule
  search [] key = none
  search (t ∷ ts) key = elim (lookup_func t key) [ some r ↦ some r | none ↦ search ts key ]

  -- The place of that subtable, 0 if there is none.
  abbrev pub place : ℕ → List Subtable → FlowKey → ℕ
  place pos [] key = 0
  place pos (t ∷ ts) key = elim (lookup_func t key) [ some r ↦ pos | none ↦ place (pos + 1) ts key ]

  abbrev pub answer : List Subtable → Slot → Slot
  answer ts slot = elim slot.rule [
    | some r ↦ slot
    | none ↦ record slot { rule = search ts slot.key }
  ]

  abbrev pub answer_all : List Subtable → List Slot → List Slot
  answer_all ts [] = []
  answer_all ts (slot ∷ slots) = answer ts slot ∷ answer_all ts slots

  abbrev pub spread : ℕ → List Subtable → Slot → ℕ
  spread pos ts slot = elim slot.rule [ some r ↦ 0 | none ↦ place pos ts slot.key ]

  answer-fill :
      (t : Subtable) (ts : List Subtable) (slot : Slot)
      → answer ts (fill lookup_func t slot) ≡ answer (t ∷ ts) slot
  unfolding fill
  answer-fill t ts slot = ground arith

  answer_all-fill_all :
      (t : Subtable) (ts : List Subtable) (slots : List Slot)
      → answer_all ts (fill_all lookup_func t slots) ≡ answer_all (t ∷ ts) slots
  unfolding fill_all
  answer_all-fill_all t ts [] = refl
  answer_all-fill_all t ts (slot ∷ slots) =
      cc (answer-fill t ts slot, answer_all-fill_all t ts slots)

  -- Without an open slot there is nothing to look up.
  answer_all-full :
      (ts : List Subtable) (slots : List Slot)
      → countp is_open slots ≡ 0
      → answer_all ts slots ≡ slots
  answer_all-full ts [] h = refl
  answer_all-full ts (slot ∷ slots) h = ground (arith, h, answer_all-full ts slots)

  spread-full :
      (pos : ℕ) (ts : List Subtable) (slots : List Slot)
      → countp is_open slots ≡ 0
      → total (spread pos ts) slots ≡ 0
  spread-full pos ts [] h = refl
  spread-full pos ts (slot ∷ slots) h = ground (arith, h, spread-full pos ts slots)

  fill-opens :
      (t : Subtable) (slots : List Slot)
      → countp is_open (fill_all lookup_func t slots) ≤ countp is_open slots
  unfolding fill fill_all
  fill-opens t [] = omega arith
  fill-opens t (slot ∷ slots) = ground (arith, fill-opens t slots)

  -- The keys that a subtable serves are counted with its place.
  spread-fill_all :
      (pos : ℕ) (t : Subtable) (ts : List Subtable) (slots : List Slot)
      → total (spread pos (t ∷ ts)) slots
        ≡ (countp is_open slots - countp is_open (fill_all lookup_func t slots)) * pos
          + total (spread (pos + 1) ts) (fill_all lookup_func t slots)
  unfolding fill fill_all
  spread-fill_all pos t ts [] = omega arith
  spread-fill_all pos t ts (slot ∷ slots) =
      let rest = spread-fill_all pos t ts slots in
      let found = countp is_open slots in
      let left = countp is_open (fill_all lookup_func t slots) in
      let fewer = fill-opens t slots in
      elim (Option-cases slot.rule) [
        | inr (r, e) ↦ ground (arith, e, rest)
        | inl n ↦ elim (Option-cases (lookup_func t slot.key)) [
          | inl m ↦
              let same : (1 + found - (1 + left)) * pos ≡ (found - left) * pos =
                ap (λ n. n * pos) (omega arith) in
              ground (arith, n, m, rest, same)
          | inr (r, e) ↦
              let one_more : (1 + found - left) * pos ≡ pos + (found - left) * pos =
                ap (λ n. n * pos) (omega (arith, fewer)) ∙ mul_suc (found - left) pos in
              ground (arith, n, e, rest, one_more)
        ]
      ]

  answer_all-none : (slots : List Slot) → answer_all [] slots ≡ slots
  answer_all-none [] = refl
  answer_all-none (slot ∷ slots) = ground (arith, answer_all-none slots)

  spread-none : (pos : ℕ) (slots : List Slot) → total (spread pos []) slots ≡ 0
  spread-none pos [] = refl
  spread-none pos (slot ∷ slots) = ground (arith, spread-none pos slots)

  lookup_from_lem :
      (pos lookups : ℕ) (ts : List Subtable) (slots : List Slot)
      → let result = lookup_from lookup_func pos lookups ts slots in
        (result.slots ≡ answer_all ts slots)
        × (result.lookups_match ≡ lookups + total (spread pos ts) slots)
  unfolding lookup_from
  lookup_from_lem pos lookups [] slots =
      (sym (answer_all-none slots), omega (arith, spread-none pos slots))
  lookup_from_lem pos lookups (t ∷ ts) slots =
      let filled = fill_all lookup_func t slots in
      let counted = lookups + (countp is_open slots - countp is_open filled) * pos in
      let rest = lookup_from_lem (pos + 1) counted ts filled in
      elim (Bool-cases (countp is_open filled == 0)) [
        | inl e ↦
            let full : countp is_open filled ≡ 0 = ground (arith, e) in
            (
              ground (arith, e, answer_all-full ts filled full, answer_all-fill_all t ts slots),
              ground
                  (arith, e, spread-fill_all pos t ts slots, spread-full (pos + 1) ts filled full),
            )
        | inr n ↦ (
          ground (arith, n, rest, answer_all-fill_all t ts slots),
          ground (arith, n, rest, spread-fill_all pos t ts slots),
        )
      ]

  all_found_lem :
      (pos lookups : ℕ) (ts : List Subtable) (slots : List Slot)
      → 0 < countp is_open slots
      → (lookup_from lookup_func pos lookups ts slots).all_found
        ≡ (countp is_open (answer_all ts slots) == 0)
  unfolding lookup_from
  all_found_lem pos lookups [] slots h =
      let same = ap (countp is_open) (answer_all-none slots) in ground (arith, h, same)
  all_found_lem pos lookups (t ∷ ts) slots h =
      let filled = fill_all lookup_func t slots in
      let counted = lookups + (countp is_open slots - countp is_open filled) * pos in
      let same = ap (countp is_open) (answer_all-fill_all t ts slots) in
      elim (Bool-cases (countp is_open filled == 0)) [
        | inl e ↦
            let full = ap (countp is_open) (answer_all-full ts filled (ground (arith, e))) in
            ground (arith, e, same, full)
        | inr n ↦
            let rest = all_found_lem (pos + 1) counted ts filled (ground (arith, n)) in
            ground (arith, n, same, rest)
      ]

  -- The slots of the keys, each filled on its own.
  abbrev pub answers : List Subtable → List FlowKey → List Slot
  answers ts [] = []
  answers ts (key ∷ keys) = record { key = key; rule = search ts key } ∷ answers ts keys

  answer_all-empty_slots :
      (ts : List Subtable) (keys : List FlowKey)
      → answer_all ts (empty_slots keys) ≡ answers ts keys
  unfolding empty_slots
  answer_all-empty_slots ts [] = refl
  answer_all-empty_slots ts (key ∷ keys) = cc (answer_all-empty_slots ts keys)

  spread-empty_slots :
      (ts : List Subtable) (keys : List FlowKey)
      → total (spread 1 ts) (empty_slots keys) ≡ total (place 1 ts) keys
  unfolding empty_slots
  spread-empty_slots ts [] = refl
  spread-empty_slots ts (key ∷ keys) = omega (arith, spread-empty_slots ts keys)

  countp-empty_slots : (keys : List FlowKey) → countp is_open (empty_slots keys) ≡ length keys
  unfolding empty_slots
  countp-empty_slots [] = refl
  countp-empty_slots (key ∷ keys) = omega (arith, countp-empty_slots keys)

  -- dpcls_lookup gives 1 to 32 keys what the lookup of each key by itself gives it: the rule of the
  -- first subtable of the vector that has one, and adds up the places of these subtables. It reports
  -- that all keys are found if no slot is left empty, also when it returns before the last subtable.
  pub dpcls_lookup-search :
      (ts : List Subtable) (keys : List FlowKey)
      → 0 < length keys
      → length keys ≤ 32
      → dpcls_lookup lookup_func ts keys
        ≡ ok (record {
          slots = answers ts keys;
          lookups_match = total (place 1 ts) keys;
          all_found = countp is_open (answers ts keys) == 0;
        })
  unfolding dpcls_lookup
  dpcls_lookup-search ts keys h k =
      let start = empty_slots keys in
      let result = lookup_from_lem 1 0 ts start in
      let filled = answer_all-empty_slots ts keys in
      let open_all = countp-empty_slots keys in
      let found = all_found_lem 1 0 ts start (omega (arith, open_all, h)) in
      let matches : (lookup_from lookup_func 1 0 ts start).lookups_match ≡ total (place 1 ts) keys =
        omega (arith, result.1, spread-empty_slots ts keys) in
      let slots = result.0 ∙ filled in
      let all = found ∙ ap (λ s. countp is_open s == 0) filled in
      let inside : (ltb 0 (length keys) && leb (length keys) 32) ≡ true = ground (arith, h, k) in
      let wanted : LookupState = record {
        slots = answers ts keys;
        lookups_match = total (place 1 ts) keys;
        all_found = countp is_open (answers ts keys) == 0;
      } in
      subst (λ b. (defined b >> ok (lookup_from lookup_func 1 0 ts start)) ≡ ok wanted) (sym inside)
        (ap ok (λ i. record { slots = slots i; lookups_match = matches i; all_found = all i }))
