-- ===== src/Ovs/Dpcls/Insert.antt =====
-- What dpcls_insert changes.
use repath.Base.{
  ℕ, ◌+◌, ◌≤◌, ◌<◌, ◌≡◌, refl, sym, ap, Bool, false, not, ◌&&◌, List, [], ◌∷◌, ◌++◌, countp, total,
  arith, if◌then◌else◌, Bool-cases, inl, inr, ◌∙◌, countp-append, total-append,
}
use mathlib.Core.Path.{subst}
use repath.Ovs.Dpcls.{
  FlowKey, Rule, Subtable, netdev_flow_key_equal, insert_rule, has_mask, dpcls_create_subtable,
  dpcls_find_subtable, dpcls_insert,
}
use repath.Ovs.Dpcls.Laws.{
  IsPublish, rules_of, rule_count, has_mask_of, is_empty, strays, IsValid, netdev_flow_key_equal→eq,
  netdev_flow_key_equal_refl, has_mask-true, has_mask-false,
}

abbrev unit : Bool → ℕ
unit b = if b then 1 else 0

rule_count-insert_rule :
    (test : Rule → Bool) (rule : Rule) (mask : FlowKey) (ts : List Subtable)
    → 0 < countp (has_mask_of mask) ts
    → rule_count test (insert_rule rule mask ts)
      ≡ unit (test (record rule { mask = mask })) + rule_count test ts
unfolding insert_rule
rule_count-insert_rule test rule mask [] h = omega arith
rule_count-insert_rule test rule mask (t ∷ ts) h =
    elim (Bool-cases (netdev_flow_key_equal t.mask mask)) [
      | inl e ↦
          let same =
            ap (λ m. unit (test (record rule { mask = m })))
              (netdev_flow_key_equal→eq t.mask mask e) in
          ground (arith, e, same)
      | inr n ↦ ground (arith, n, h, rule_count-insert_rule test rule mask ts)
    ]

countp-insert_rule :
    (q : FlowKey → Bool) (rule : Rule) (mask : FlowKey) (ts : List Subtable)
    → countp (λ t. q t.mask) (insert_rule rule mask ts) ≡ countp (λ t. q t.mask) ts
unfolding insert_rule
countp-insert_rule q rule mask [] = refl
countp-insert_rule q rule mask (t ∷ ts) = ground (arith, countp-insert_rule q rule mask ts)

-- Empty subtables, those for the mask left out.
abbrev is_other_empty : FlowKey → Subtable → Bool
is_other_empty mask t = is_empty t && not (has_mask_of mask t)

is_other_empty_lem :
    (mask : FlowKey) (ts : List Subtable)
    → countp is_empty ts ≤ countp (is_other_empty mask) ts + countp (has_mask_of mask) ts
is_other_empty_lem mask [] = omega arith
is_other_empty_lem mask (t ∷ ts) = ground (arith, is_other_empty_lem mask ts)

is_other_empty_le :
    (mask : FlowKey) (ts : List Subtable) → countp (is_other_empty mask) ts ≤ countp is_empty ts
is_other_empty_le mask [] = omega arith
is_other_empty_le mask (t ∷ ts) = ground (arith, is_other_empty_le mask ts)

countp-is_empty-insert_rule :
    (rule : Rule) (mask : FlowKey) (ts : List Subtable)
    → 0 < countp (has_mask_of mask) ts
    → countp is_empty (insert_rule rule mask ts) + 1
      ≤ countp (is_other_empty mask) ts + countp (has_mask_of mask) ts
unfolding insert_rule
countp-is_empty-insert_rule rule mask [] h = omega (arith, h)
countp-is_empty-insert_rule rule mask (t ∷ ts) h =
    ground (arith, h, countp-is_empty-insert_rule rule mask ts, is_other_empty_lem mask ts)

total-strays-insert_rule :
    (rule : Rule) (mask : FlowKey) (ts : List Subtable)
    → total strays (insert_rule rule mask ts) ≡ total strays ts
unfolding insert_rule
total-strays-insert_rule rule mask [] = refl
total-strays-insert_rule rule mask (t ∷ ts) =
    ground (arith, netdev_flow_key_equal_refl t.mask, total-strays-insert_rule rule mask ts)

-- What the classifier is once it has a subtable for the mask.
record HasSubtable (mask : FlowKey) (ts before : List Subtable) : Type 0 where
  found : 0 < countp (has_mask_of mask) ts
  distinct : (m : FlowKey) → countp (has_mask_of m) ts ≤ 1
  filled : countp (is_other_empty mask) ts ≡ 0
  owned : total strays ts ≡ 0
  kept : (test : Rule → Bool) → rule_count test ts ≡ rule_count test before

module _ (publish : List Subtable → List Subtable) (lawful : IsPublish publish) where
  create-distinct :
      (mask : FlowKey) (ts : List Subtable)
      → IsValid ts
      → has_mask mask ts ≡ false
      → (m : FlowKey) → countp (has_mask_of m) (dpcls_create_subtable publish ts mask) ≤ 1
  unfolding dpcls_create_subtable
  create-distinct mask ts h new m =
      let t : Subtable = record { mask = mask; rules = []; hit_cnt = 0; priority = 0 } in
      let published = lawful.countp_publish (has_mask_of m) (ts ++ (t ∷ [])) in
      let added = countp-append (has_mask_of m) ts (t ∷ []) in
      elim (Bool-cases (netdev_flow_key_equal mask m)) [
        | inl e ↦
            let same = ap (λ k. countp (has_mask_of k) ts) (netdev_flow_key_equal→eq mask m e) in
            ground (arith, published, added, e, same, has_mask-false mask ts new)
        | inr n ↦ ground (arith, published, added, n, h.distinct m)
      ]

  create-HasSubtable :
      (mask : FlowKey) (ts : List Subtable)
      → IsValid ts
      → has_mask mask ts ≡ false
      → HasSubtable mask (dpcls_create_subtable publish ts mask) ts
  unfolding dpcls_create_subtable
  create-HasSubtable mask ts h new =
      let t : Subtable = record { mask = mask; rules = []; hit_cnt = 0; priority = 0 } in
      let counted = λ (p : Subtable → Bool).
        lawful.countp_publish p (ts ++ (t ∷ [])) ∙ countp-append p ts (t ∷ []) in
      let summed = λ (f : Subtable → ℕ).
        lawful.total_publish f (ts ++ (t ∷ [])) ∙ total-append f ts (t ∷ []) in
      record {
        found = ground (arith, counted (has_mask_of mask), netdev_flow_key_equal_refl mask);
        distinct = create-distinct mask ts h new;
        filled = ground (
          arith,
          counted (is_other_empty mask),
          netdev_flow_key_equal_refl mask,
          is_other_empty_le mask ts,
          h.filled,
        );
        owned = omega (arith, summed strays, h.owned);
        kept = λ test. omega (arith, summed (rules_of test));
      }

  find-HasSubtable :
      (mask : FlowKey) (ts : List Subtable)
      → IsValid ts
      → HasSubtable mask (dpcls_find_subtable publish ts mask) ts
  unfolding dpcls_find_subtable
  find-HasSubtable mask ts h =
      let found = λ (b : Bool).
        HasSubtable mask (if b then ts else dpcls_create_subtable publish ts mask) ts in
      elim (Bool-cases (has_mask mask ts)) [
        | inl e ↦
            let old : HasSubtable mask ts ts = record {
              found = has_mask-true mask ts e;
              distinct = h.distinct;
              filled = omega (arith, is_other_empty_le mask ts, h.filled);
              owned = h.owned;
              kept = λ test. refl;
            } in
            subst found (sym e) old
        | inr n ↦ subst found (sym n) (create-HasSubtable mask ts h n)
      ]

  -- A rule inserted in a valid classifier leaves it valid.
  pub dpcls_insert-IsValid :
      (ts : List Subtable) (rule : Rule) (mask : FlowKey)
      → IsValid ts
      → IsValid (dpcls_insert publish ts rule mask)
  unfolding dpcls_insert
  dpcls_insert-IsValid ts rule mask h =
      let found = dpcls_find_subtable publish ts mask in
      let got = find-HasSubtable mask ts h in
      record {
        distinct = λ m. omega (
          arith,
          countp-insert_rule (λ k. netdev_flow_key_equal k m) rule mask found,
          got.distinct m,
        );
        filled = omega (
          arith,
          countp-is_empty-insert_rule rule mask found got.found,
          got.filled,
          got.distinct mask,
        );
        owned = omega (arith, total-strays-insert_rule rule mask found, got.owned);
      }

  pub rule_count-dpcls_insert :
      (test : Rule → Bool) (ts : List Subtable) (rule : Rule) (mask : FlowKey)
      → IsValid ts
      → rule_count test (dpcls_insert publish ts rule mask)
        ≡ (if test (record rule { mask = mask }) then 1 else 0) + rule_count test ts
  unfolding dpcls_insert
  rule_count-dpcls_insert test ts rule mask h =
      let got = find-HasSubtable mask ts h in
      omega (
        arith,
        rule_count-insert_rule test rule mask (dpcls_find_subtable publish ts mask) got.found,
        got.kept test,
      )
