-- ===== src/Ovs/Dpcls/Remove.antt =====
-- What dpcls_remove changes.
use repath.Base.{
  ℕ, ◌+◌, ◌≤◌, ◌≡◌, refl, sym, ap, Bool, true, false, not, ◌&&◌, List, [], ◌∷◌, length, countp,
  total, arith, if◌then◌else◌, ◌==◌, Bool-cases, inl, inr,
}
use mathlib.Core.Path.{subst}
use repath.Ovs.Dpcls.{
  FlowKey, Rule, Subtable, netdev_flow_key_equal, same_rule, drop_rule, unless_empty, remove_rule,
  dpcls_remove,
}
use repath.Ovs.Dpcls.Reorder.{publish-IsValid}
use repath.Ovs.Dpcls.Laws.{
  IsPublish, rules_of, rule_count, has_mask_of, is_empty, strays, IsValid, netdev_flow_key_equal→eq,
  countp-drop_rule,
}

abbrev is_rest : (Rule → Bool) → Rule → Rule → Bool
is_rest test rule s = test s && not (same_rule rule s)

countp-is_rest_le :
    (test : Rule → Bool) (rule : Rule) (rs : List Rule)
    → countp (is_rest test rule) rs ≤ countp test rs
countp-is_rest_le test rule [] = omega arith
countp-is_rest_le test rule (r ∷ rs) = ground (arith, countp-is_rest_le test rule rs)

is_rest-other :
    (test : Rule → Bool) (rule s : Rule) (mask : FlowKey)
    → netdev_flow_key_equal mask rule.mask ≡ false
    → netdev_flow_key_equal s.mask mask ≡ true
    → is_rest test rule s ≡ test s
is_rest-other test rule s mask n e =
    let same =
      ap (λ m. netdev_flow_key_equal m rule.mask) (netdev_flow_key_equal→eq s.mask mask e) in
    ground (arith, n, same)

-- The rules of another subtable are others than the rule.
countp-other :
    (test : Rule → Bool) (rule : Rule) (mask : FlowKey) (rs : List Rule)
    → netdev_flow_key_equal mask rule.mask ≡ false
    → countp (λ r. not (netdev_flow_key_equal r.mask mask)) rs ≡ 0
    → countp (is_rest test rule) rs ≡ countp test rs
countp-other test rule mask [] n h = refl
countp-other test rule mask (r ∷ rs) n h = elim (Bool-cases (netdev_flow_key_equal r.mask mask)) [
  | inl e ↦
      let rest = countp-other test rule mask rs n (ground (arith, e, h)) in
      let here = ap {B = ℕ} (λ b. if b then 1 else 0) (is_rest-other test rule r mask n e) in
      omega (arith, here, rest)
  | inr k ↦ ground (arith, k, h)
]

rule_count-others :
    (test : Rule → Bool) (rule : Rule) (ts : List Subtable)
    → countp (has_mask_of rule.mask) ts ≡ 0
    → total strays ts ≡ 0
    → rule_count (is_rest test rule) ts ≡ rule_count test ts
rule_count-others test rule [] n h = refl
rule_count-others test rule (t ∷ ts) n h =
    elim (Bool-cases (netdev_flow_key_equal t.mask rule.mask)) [
      | inl e ↦ ground (arith, e, n)
      | inr k ↦
          let rest = rule_count-others test rule ts (ground (arith, k, n)) (omega (arith, h)) in
          omega (arith, rest, countp-other test rule t.mask t.rules k (omega (arith, h)))
    ]

countp-empty : (test : Rule → Bool) (rs : List Rule) → length rs ≡ 0 → countp test rs ≡ 0
countp-empty test [] h = refl
countp-empty test (r ∷ rs) h = omega (arith, h)

rule_count-unless_empty :
    (test : Rule → Bool) (t : Subtable) (ts : List Subtable)
    → rule_count test (unless_empty t ts) ≡ rules_of test t + rule_count test ts
unfolding unless_empty
rule_count-unless_empty test t ts = elim (Bool-cases (length t.rules == 0)) [
  | inl e ↦ ground (arith, e, countp-empty test t.rules)
  | inr n ↦ ground (arith, n)
]

rule_count-remove_rule :
    (test : Rule → Bool) (rule : Rule) (ts : List Subtable)
    → countp (has_mask_of rule.mask) ts ≤ 1
    → total strays ts ≡ 0
    → rule_count test (remove_rule rule ts) ≡ rule_count (is_rest test rule) ts
unfolding remove_rule
rule_count-remove_rule test rule [] d h = refl
rule_count-remove_rule test rule (t ∷ ts) d h =
    elim (Bool-cases (netdev_flow_key_equal t.mask rule.mask)) [
      | inl e ↦
          let smaller : Subtable = record t { rules = drop_rule rule t.rules } in
          let rest = rule_count-others test rule ts (ground (arith, e, d)) (omega (arith, h)) in
          ground (
            arith,
            e,
            rest,
            rule_count-unless_empty test smaller ts,
            countp-drop_rule test rule t.rules,
          )
      | inr n ↦
          let rest =
            rule_count-remove_rule test rule ts (ground (arith, n, d)) (omega (arith, h)) in
          ground (arith, n, rest, countp-other test rule t.mask t.rules n (omega (arith, h)))
    ]

countp-has_mask_of-remove_rule :
    (m : FlowKey) (rule : Rule) (ts : List Subtable)
    → countp (has_mask_of m) (remove_rule rule ts) ≤ countp (has_mask_of m) ts
unfolding remove_rule unless_empty
countp-has_mask_of-remove_rule m rule [] = omega arith
countp-has_mask_of-remove_rule m rule (t ∷ ts) =
    ground (arith, countp-has_mask_of-remove_rule m rule ts)

countp-is_empty-remove_rule :
    (rule : Rule) (ts : List Subtable)
    → countp is_empty ts ≡ 0
    → countp is_empty (remove_rule rule ts) ≡ 0
unfolding remove_rule unless_empty
countp-is_empty-remove_rule rule [] h = refl
countp-is_empty-remove_rule rule (t ∷ ts) h = ground (arith, h, countp-is_empty-remove_rule rule ts)

total-strays-remove_rule :
    (rule : Rule) (ts : List Subtable) → total strays (remove_rule rule ts) ≤ total strays ts
unfolding remove_rule unless_empty
total-strays-remove_rule rule [] = omega arith
total-strays-remove_rule rule (t ∷ ts) =
    let wrong = λ (r : Rule). not (netdev_flow_key_equal r.mask t.mask) in
    ground (
      arith,
      total-strays-remove_rule rule ts,
      countp-drop_rule wrong rule t.rules,
      countp-is_rest_le wrong rule t.rules,
    )

module _ (publish : List Subtable → List Subtable) (lawful : IsPublish publish) where
  -- What holds before and after pvector_publish holds of dpcls_remove.
  either_published :
      (P : List Subtable → Type 0) (left ts : List Subtable)
      → P left
      → P (publish left)
      → P (if length left == length ts then left else publish left)
  either_published P left ts h k = elim (Bool-cases (length left == length ts)) [
    | inl e ↦ subst (λ b. P (if b then left else publish left)) (sym e) h
    | inr n ↦ subst (λ b. P (if b then left else publish left)) (sym n) k
  ]

  pub dpcls_remove-IsValid :
      (ts : List Subtable) (rule : Rule) → IsValid ts → IsValid (dpcls_remove publish ts rule)
  unfolding dpcls_remove
  dpcls_remove-IsValid ts rule h =
      let left = remove_rule rule ts in
      let valid : IsValid left = record {
        distinct = λ m. omega (arith, countp-has_mask_of-remove_rule m rule ts, h.distinct m);
        filled = countp-is_empty-remove_rule rule ts h.filled;
        owned = omega (arith, total-strays-remove_rule rule ts, h.owned);
      } in
      either_published IsValid left ts valid (publish-IsValid publish lawful left valid)

  pub rule_count-dpcls_remove :
      (test : Rule → Bool) (ts : List Subtable) (rule : Rule)
      → IsValid ts
      → rule_count test (dpcls_remove publish ts rule)
        ≡ rule_count (λ s. test s && not (same_rule rule s)) ts
  unfolding dpcls_remove
  rule_count-dpcls_remove test ts rule h =
      let left = remove_rule rule ts in
      let counted = rule_count-remove_rule test rule ts (h.distinct rule.mask) h.owned in
      either_published (λ after. rule_count test after ≡ rule_count (is_rest test rule) ts) left ts
        counted (omega (arith, lawful.total_publish (rules_of test) left, counted))
