-- ===== src/Ovs/Dpcls.antt =====
-- The classifier of the datapath, dpcls_* of openvswitch-2.17.2-cq-dpu/dpif-netdev.c: rules in
-- subtables, one for each mask. A miniflow is the list of its units that are set, with their
-- indices. The masks that dpcls_flow_key_gen_masks prepares for the lookup functions are left out.
pub mod Laws
pub mod Insert
pub mod Reorder
pub mod Remove
pub mod Batch
pub mod Client
use repath.Base.{
  ℕ, zero, suc, ◌+◌, ◌-◌, ◌*◌, ◌≡◌, Bool, true, false, not, ◌&&◌, Option, none, some, List, [], ◌∷◌,
  ◌++◌, length, ltb, leb, ◌==◌, if◌then◌else◌, countp, total, ◌<◌, Result, ok, defined, ◌>>◌,
  and_then,
}
use Prim.Native.Nat.{bit_and}

pub record FlowUnit : Type 0 where
  pub index : ℕ
  pub value : ℕ

-- netdev_flow_key, as a mask or as what is looked up
pub record FlowKey : Type 0 where
  pub hash : ℕ
  pub units : List FlowUnit

-- dpcls_rule: `id` stands for its address, `mask` is the mask that it points at once it is inserted,
-- and `flow` the units of its flow.
pub record Rule : Type 0 where
  pub id : ℕ
  pub mask : FlowKey
  pub flow : List FlowUnit

pub record Subtable : Type 0 where
  pub mask : FlowKey
  pub rules : List Rule
  pub hit_cnt : ℕ
  pub priority : ℕ

-- memcmp of two miniflows
abbrev pub same_units : List FlowUnit → List FlowUnit → Bool
same_units [] [] = true
same_units [] (v ∷ vs) = false
same_units (u ∷ us) [] = false
same_units (u ∷ us) (v ∷ vs) = u.index == v.index && (u.value == v.value && same_units us vs)

abbrev pub netdev_flow_key_equal : FlowKey → FlowKey → Bool
netdev_flow_key_equal a b = a.hash == b.hash && same_units a.units b.units

abbrev pub value_at : List FlowUnit → ℕ → ℕ
value_at [] i = 0
value_at (u ∷ us) i = if u.index == i then u.value else value_at us i

-- The values of the rule and of its mask are read side by side; a rule has as many as its mask.
pub matches_units : List FlowUnit → List FlowUnit → FlowKey → Bool
matches_units [] masks target = true
matches_units (u ∷ us) [] target = true
matches_units (u ∷ us) (m ∷ masks) target =
    bit_and (value_at target.units u.index) m.value == u.value && matches_units us masks target

unfoldable pub dpcls_rule_matches_key : Rule → FlowKey → Bool
unfolding matches_units
dpcls_rule_matches_key rule target = matches_units rule.flow rule.mask.units target

-- Two pointers to the same rule.
abbrev pub same_rule : Rule → Rule → Bool
same_rule r s = netdev_flow_key_equal s.mask r.mask && r.id == s.id

-- The map and the vector of a classifier have the same subtables, here in the order of the vector.
pub has_mask : FlowKey → List Subtable → Bool
has_mask mask [] = false
has_mask mask (t ∷ ts) = if netdev_flow_key_equal t.mask mask then true else has_mask mask ts

-- cmap_insert into the rules of the subtable of the mask.
pub insert_rule : Rule → FlowKey → List Subtable → List Subtable
insert_rule rule mask [] = []
insert_rule rule mask (t ∷ ts) =
    let rest = insert_rule rule mask ts in
    if netdev_flow_key_equal t.mask mask
    then record t { rules = record rule { mask = t.mask } ∷ t.rules } ∷ ts
    else t ∷ rest

pub drop_rule : Rule → List Rule → List Rule
drop_rule rule [] = []
drop_rule rule (r ∷ rs) =
    let rest = drop_rule rule rs in if same_rule rule r then rest else r ∷ rest

-- dpcls_destroy_subtable takes the subtable out if it has no rule left.
pub unless_empty : Subtable → List Subtable → List Subtable
unless_empty t ts = if length t.rules == 0 then ts else t ∷ ts

pub remove_rule : Rule → List Subtable → List Subtable
unfolding drop_rule unless_empty
remove_rule rule [] = []
remove_rule rule (t ∷ ts) =
    let rest = remove_rule rule ts in
    if netdev_flow_key_equal t.mask rule.mask
    then unless_empty (record t { rules = drop_rule rule t.rules }) ts
    else t ∷ rest

pub change_priorities : List Subtable → List Subtable
change_priorities [] = []
change_priorities (t ∷ ts) = record t { priority = t.hit_cnt; hit_cnt = 0 } ∷ change_priorities ts

-- `publish` is pvector_publish, which brings the vector into the order of the priorities.
module _ (publish : List Subtable → List Subtable) where
  unfoldable pub dpcls_create_subtable : List Subtable → FlowKey → List Subtable
  dpcls_create_subtable ts mask =
      publish (ts ++ (record { mask = mask; rules = []; hit_cnt = 0; priority = 0 } ∷ []))

  -- The classifier in which there is a subtable for the mask.
  unfoldable pub dpcls_find_subtable : List Subtable → FlowKey → List Subtable
  unfolding has_mask dpcls_create_subtable
  dpcls_find_subtable ts mask = if has_mask mask ts then ts else dpcls_create_subtable ts mask

  unfoldable pub dpcls_insert : List Subtable → Rule → FlowKey → List Subtable
  unfolding dpcls_find_subtable insert_rule
  dpcls_insert ts rule mask = insert_rule rule mask (dpcls_find_subtable ts mask)

  -- The vector is published if a subtable has left it.
  unfoldable pub dpcls_remove : List Subtable → Rule → List Subtable
  unfolding remove_rule
  dpcls_remove ts rule =
      let left = remove_rule rule ts in if length left == length ts then left else publish left

  unfoldable pub dpcls_sort_subtable_vector : List Subtable → List Subtable
  unfolding change_priorities
  dpcls_sort_subtable_vector ts = publish (change_priorities ts)

-- A key with its slot of `rules`. Its bit of keys_map is set while the slot is empty.
pub record Slot : Type 0 where
  pub key : FlowKey
  pub rule : Option Rule

pub record LookupState : Type 0 where
  pub slots : List Slot
  pub lookups_match : ℕ
  pub all_found : Bool

abbrev pub is_open : Slot → Bool
is_open slot = elim slot.rule [ none ↦ true | some r ↦ false ]

pub empty_slots : List FlowKey → List Slot
empty_slots [] = []
empty_slots (key ∷ keys) = record { key = key; rule = none } ∷ empty_slots keys

-- `lookup_func` is the function of a subtable that looks one key up.
module _ (lookup_func : Subtable → FlowKey → Option Rule) where
  pub fill : Subtable → Slot → Slot
  fill t slot = elim slot.rule [
    | some r ↦ slot
    | none ↦ record slot { rule = lookup_func t slot.key }
  ]

  pub fill_all : Subtable → List Slot → List Slot
  unfolding fill
  fill_all t [] = []
  fill_all t (slot ∷ slots) = fill t slot ∷ fill_all t slots

  -- The loop over the subtables; `pos` is subtable_pos.
  pub lookup_from : ℕ → ℕ → List Subtable → List Slot → LookupState
  unfolding fill_all
  lookup_from pos lookups [] slots = record {
    slots = slots;
    lookups_match = lookups;
    all_found = false;
  }
  lookup_from pos lookups (t ∷ ts) slots =
      let filled = fill_all t slots in
      let found = countp is_open slots in
      let left = countp is_open filled in
      let counted = lookups + (found - left) * pos in
      let rest = lookup_from (pos + 1) counted ts filled in
      if left == 0
      then record { slots = filled; lookups_match = counted; all_found = true }
      else rest

  -- A shift of keys_map by all of its 32 bits is undefined.
  unfoldable pub dpcls_lookup : List Subtable → List FlowKey → Result LookupState
  unfolding lookup_from empty_slots
  dpcls_lookup ts keys =
      defined (ltb 0 (length keys) && leb (length keys) 32)
      >> ok (lookup_from 1 0 ts (empty_slots keys))
