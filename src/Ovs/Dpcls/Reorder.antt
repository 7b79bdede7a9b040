-- ===== src/Ovs/Dpcls/Reorder.antt =====
-- What dpcls_sort_subtable_vector and pvector_publish change.
use repath.Base.{ℕ, ◌≡◌, refl, Bool, not, List, [], ◌∷◌, length, countp, total, arith, ◌==◌}
use repath.Ovs.Dpcls.{
  FlowKey, Rule, Subtable, netdev_flow_key_equal, change_priorities, dpcls_sort_subtable_vector,
}
use repath.Ovs.Dpcls.Laws.{IsPublish, rules_of, rule_count, has_mask_of, is_empty, strays, IsValid}

countp-change_priorities :
    (q : FlowKey → List Rule → Bool) (ts : List Subtable)
    → countp (λ t. q t.mask t.rules) (change_priorities ts) ≡ countp (λ t. q t.mask t.rules) ts
unfolding change_priorities
countp-change_priorities q [] = refl
countp-change_priorities q (t ∷ ts) = omega (arith, countp-change_priorities q ts)

total-change_priorities :
    (f : FlowKey → List Rule → ℕ) (ts : List Subtable)
    → total (λ t. f t.mask t.rules) (change_priorities ts) ≡ total (λ t. f t.mask t.rules) ts
unfolding change_priorities
total-change_priorities f [] = refl
total-change_priorities f (t ∷ ts) = omega (arith, total-change_priorities f ts)

module _ (publish : List Subtable → List Subtable) (lawful : IsPublish publish) where
  pub publish-IsValid : (ts : List Subtable) → IsValid ts → IsValid (publish ts)
  publish-IsValid ts h = record {
    distinct = λ m. omega (arith, lawful.countp_publish (has_mask_of m) ts, h.distinct m);
    filled = omega (arith, lawful.countp_publish is_empty ts, h.filled);
    owned = omega (arith, lawful.total_publish strays ts, h.owned);
  }

  pub rule_count-dpcls_sort_subtable_vector :
      (test : Rule → Bool) (ts : List Subtable)
      → rule_count test (dpcls_sort_subtable_vector publish ts) ≡ rule_count test ts
  unfolding dpcls_sort_subtable_vector
  rule_count-dpcls_sort_subtable_vector test ts = omega (
    arith,
    lawful.total_publish (rules_of test) (change_priorities ts),
    total-change_priorities (λ mask rules. countp test rules) ts,
  )

  pub dpcls_sort_subtable_vector-IsValid :
      (ts : List Subtable) → IsValid ts → IsValid (dpcls_sort_subtable_vector publish ts)
  unfolding dpcls_sort_subtable_vector
  dpcls_sort_subtable_vector-IsValid ts h =
      let same_masks =
        λ (m : FlowKey). countp-change_priorities (λ mask rules. netdev_flow_key_equal mask m) ts in
      let wrong = λ (mask : FlowKey) (rules : List Rule).
        countp (λ r. not (netdev_flow_key_equal r.mask mask)) rules in
      publish-IsValid (change_priorities ts) (record {
        distinct = λ m. omega (arith, same_masks m, h.distinct m);
        filled =
            omega (arith, countp-change_priorities (λ mask rules. length rules == 0) ts, h.filled);
        owned = omega (arith, total-change_priorities wrong ts, h.owned);
      })
