-- ===== src/Ovs/Dpcls/Laws.antt =====
-- What is assumed of pvector_publish and of the lookup functions, and what holds of a classifier.
use repath.Base.{
  ℕ, ◌≤◌, ◌<◌, ◌≡◌, refl, Bool, true, false, not, ◌&&◌, List, [], ◌∷◌, length, countp, total, arith,
  ◌==◌,
}
use repath.Ovs.Dpcls.{
  FlowUnit, FlowKey, Rule, Subtable, same_units, netdev_flow_key_equal, same_rule, drop_rule,
  has_mask,
}

-- The order changes, the subtables do not.
pub record IsPublish (publish : List Subtable → List Subtable) : Type 1 where
  pub countp_publish :
      (p : Subtable → Bool) (ts : List Subtable) → countp p (publish ts) ≡ countp p ts
  pub total_publish : (f : Subtable → ℕ) (ts : List Subtable) → total f (publish ts) ≡ total f ts

-- How many rules of a classifier pass a test.
abbrev pub rules_of : (Rule → Bool) → Subtable → ℕ
rules_of test t = countp test t.rules

abbrev pub rule_count : (Rule → Bool) → List Subtable → ℕ
rule_count test ts = total (rules_of test) ts

abbrev pub has_mask_of : FlowKey → Subtable → Bool
has_mask_of mask t = netdev_flow_key_equal t.mask mask

abbrev pub is_empty : Subtable → Bool
is_empty t = length t.rules == 0

-- How many rules of a subtable point at another mask than its own.
abbrev pub strays : Subtable → ℕ
strays t = countp (λ r. not (netdev_flow_key_equal r.mask t.mask)) t.rules

-- A classifier has one subtable for a mask at most, none is empty, and rules point at the mask of
-- their subtable.
pub record IsValid (ts : List Subtable) : Type 0 where
  pub distinct : (mask : FlowKey) → countp (has_mask_of mask) ts ≤ 1
  pub filled : countp is_empty ts ≡ 0
  pub owned : total strays ts ≡ 0

same_units→eq : (us vs : List FlowUnit) → same_units us vs ≡ true → us ≡ vs
same_units→eq [] [] h = refl
same_units→eq [] (v ∷ vs) h = cc
same_units→eq (u ∷ us) [] h = cc
same_units→eq (u ∷ us) (v ∷ vs) h = ground (arith, h, same_units→eq us vs)

same_units_refl : (us : List FlowUnit) → same_units us us ≡ true
same_units_refl [] = refl
same_units_refl (u ∷ us) = ground (arith, same_units_refl us)

pub netdev_flow_key_equal→eq : (a b : FlowKey) → netdev_flow_key_equal a b ≡ true → a ≡ b
netdev_flow_key_equal→eq a b h = ground (arith, h, same_units→eq a.units b.units)

pub netdev_flow_key_equal_refl : (a : FlowKey) → netdev_flow_key_equal a a ≡ true
netdev_flow_key_equal_refl a = ground (arith, same_units_refl a.units)

pub countp-drop_rule :
    (test : Rule → Bool) (rule : Rule) (rs : List Rule)
    → countp test (drop_rule rule rs) ≡ countp (λ s. test s && not (same_rule rule s)) rs
unfolding drop_rule
countp-drop_rule test rule [] = refl
countp-drop_rule test rule (r ∷ rs) = ground (arith, countp-drop_rule test rule rs)

pub has_mask-true :
    (mask : FlowKey) (ts : List Subtable)
    → has_mask mask ts ≡ true
    → 0 < countp (has_mask_of mask) ts
unfolding has_mask
has_mask-true mask [] h = cc
has_mask-true mask (t ∷ ts) h = ground (arith, h, has_mask-true mask ts)

pub has_mask-false :
    (mask : FlowKey) (ts : List Subtable)
    → has_mask mask ts ≡ false
    → countp (has_mask_of mask) ts ≡ 0
unfolding has_mask
has_mask-false mask [] h = refl
has_mask-false mask (t ∷ ts) h = ground (arith, h, has_mask-false mask ts)
