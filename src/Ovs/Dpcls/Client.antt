-- ===== src/Ovs/Dpcls/Client.antt =====
-- A classifier as its users see it: rules that are inserted, removed and looked up. What it is to
-- them is the list of the rules that are in it, without subtables and without an order.
use repath.Base.{
  ◌≤◌, ◌<◌, ◌≡◌, refl, sym, Bool, true, not, ◌&&◌, Option, none, some, List, [], ◌∷◌, length,
  countp, All, arith, ◌∙◌, ok, Option-cases, inl, inr,
}
use mathlib.Core.Path.{subst}
use repath.Ovs.Dpcls.{
  FlowKey, Rule, Subtable, LookupState, same_rule, drop_rule, dpcls_rule_matches_key, dpcls_insert,
  dpcls_remove, dpcls_sort_subtable_vector, dpcls_lookup,
}
use repath.Ovs.Dpcls.Laws.{IsPublish, rule_count, IsValid, countp-drop_rule}
use repath.Ovs.Dpcls.Insert.{dpcls_insert-IsValid, rule_count-dpcls_insert}
use repath.Ovs.Dpcls.Remove.{dpcls_remove-IsValid, rule_count-dpcls_remove}
use repath.Ovs.Dpcls.Reorder.{
  dpcls_sort_subtable_vector-IsValid, rule_count-dpcls_sort_subtable_vector,
}
use repath.Ovs.Dpcls.Batch.{search, answers, dpcls_lookup-search}

-- What is assumed of the function that looks a key up in one subtable.
pub record IsLookup (lookup_func : Subtable → FlowKey → Option Rule) : Type 0 where
  pub sound :
      (t : Subtable) (key : FlowKey) (r : Rule)
      → lookup_func t key ≡ some r
      → (dpcls_rule_matches_key r key ≡ true) × (0 < countp (same_rule r) t.rules)
  pub complete :
      (t : Subtable) (key : FlowKey)
      → lookup_func t key ≡ none
      → countp (λ r. dpcls_rule_matches_key r key) t.rules ≡ 0

pub data Change : Type 0 where
  inserted : Rule → FlowKey → Change
  removed : Rule → Change
  reordered : Change

-- The rules in the classifier, the one that was inserted last first.
unfoldable pub bag_after : List Rule → List Change → List Rule
bag_after bag [] = bag
bag_after bag (inserted rule mask ∷ cs) = bag_after (record rule { mask = mask } ∷ bag) cs
bag_after bag (removed rule ∷ cs) = bag_after (drop_rule rule bag) cs
bag_after bag (reordered ∷ cs) = bag_after bag cs

-- A found rule is one of the list that matches; none is found if none matches.
abbrev pub Answers : List Rule → FlowKey → Option Rule → Type 0
Answers bag key none = countp (λ r. dpcls_rule_matches_key r key) bag ≡ 0
Answers bag key (some r) = (dpcls_rule_matches_key r key ≡ true) × (0 < countp (same_rule r) bag)

-- A classifier that stands for a list of rules.
pub record Holds (bag : List Rule) (ts : List Subtable) : Type 0 where
  pub valid : IsValid ts
  pub counted : (test : Rule → Bool) → rule_count test ts ≡ countp test bag

module _ (publish : List Subtable → List Subtable) where
  unfoldable pub run_changes : List Subtable → List Change → List Subtable
  run_changes ts [] = ts
  run_changes ts (inserted rule mask ∷ cs) = run_changes (dpcls_insert publish ts rule mask) cs
  run_changes ts (removed rule ∷ cs) = run_changes (dpcls_remove publish ts rule) cs
  run_changes ts (reordered ∷ cs) = run_changes (dpcls_sort_subtable_vector publish ts) cs

  -- Whatever is inserted, removed and reordered, from a classifier on: the rules in the subtables
  -- are, with how often each of them is there, those of the list.
  pub run_changes-Holds :
      IsPublish publish
      → (bag : List Rule) (ts : List Subtable) (cs : List Change) → Holds bag ts
      → Holds (bag_after bag cs) (run_changes ts cs)
  unfolding run_changes bag_after
  run_changes-Holds lawful bag ts [] h = h
  run_changes-Holds lawful bag ts (inserted rule mask ∷ cs) h =
      run_changes-Holds lawful (record rule { mask = mask } ∷ bag)
        (dpcls_insert publish ts rule mask) cs
        (record {
          valid = dpcls_insert-IsValid publish lawful ts rule mask h.valid;
          counted = λ test. omega (
            arith,
            rule_count-dpcls_insert publish lawful test ts rule mask h.valid,
            h.counted test,
          );
        })
  run_changes-Holds lawful bag ts (removed rule ∷ cs) h =
      run_changes-Holds lawful (drop_rule rule bag) (dpcls_remove publish ts rule) cs (record {
        valid = dpcls_remove-IsValid publish lawful ts rule h.valid;
        counted = λ test. omega (
          arith,
          rule_count-dpcls_remove publish lawful test ts rule h.valid,
          h.counted (λ s. test s && not (same_rule rule s)),
          countp-drop_rule test rule bag,
        );
      })
  run_changes-Holds lawful bag ts (reordered ∷ cs) h =
      run_changes-Holds lawful bag (dpcls_sort_subtable_vector publish ts) cs (record {
        valid = dpcls_sort_subtable_vector-IsValid publish lawful ts h.valid;
        counted =
            λ test. rule_count-dpcls_sort_subtable_vector publish lawful test ts ∙ h.counted test;
      })

pub Holds-nil : Holds [] []
Holds-nil = record {
  valid = record { distinct = λ m. omega arith; filled = refl; owned = refl };
  counted = λ test. refl;
}

module _ (lookup_func : Subtable → FlowKey → Option Rule) (correct : IsLookup lookup_func) where
  search_sound :
      (ts : List Subtable) (key : FlowKey) (r : Rule)
      → search lookup_func ts key ≡ some r
      → (dpcls_rule_matches_key r key ≡ true) × (0 < rule_count (same_rule r) ts)
  search_sound [] key r e = cc
  search_sound (t ∷ ts) key r e = elim (Option-cases (lookup_func t key)) [
    | inr (s, f) ↦
        let found = correct.sound t key r (ground (arith, f, e)) in
        (found.0, omega (arith, found.1))
    | inl n ↦
        let found = search_sound ts key r (ground (arith, n, e)) in
        (found.0, omega (arith, found.1))
  ]

  search_complete :
      (ts : List Subtable) (key : FlowKey)
      → search lookup_func ts key ≡ none
      → rule_count (λ r. dpcls_rule_matches_key r key) ts ≡ 0
  search_complete [] key e = refl
  search_complete (t ∷ ts) key e = elim (Option-cases (lookup_func t key)) [
    | inr (s, f) ↦ ground (arith, f, e)
    | inl n ↦ omega (arith, correct.complete t key n, search_complete ts key (ground (arith, n, e)))
  ]

  search-Answers :
      (bag : List Rule) (ts : List Subtable) (key : FlowKey)
      → Holds bag ts
      → Answers bag key (search lookup_func ts key)
  search-Answers bag ts key h = elim (Option-cases (search lookup_func ts key)) [
    | inl n ↦
        let missing = search_complete ts key n in
        subst (Answers bag key) (sym n) (omega (arith, missing, h.counted _))
    | inr (r, e) ↦
        let found = search_sound ts key r e in
        subst (Answers bag key) (sym e) (found.0, omega (arith, found.1, h.counted (same_rule r)))
  ]

  answers-Answers :
      (bag : List Rule) (ts : List Subtable) (keys : List FlowKey)
      → Holds bag ts
      → All (λ slot. Answers bag slot.key slot.rule) (answers lookup_func ts keys)
  answers-Answers bag ts [] h = tt
  answers-Answers bag ts (key ∷ keys) h =
      (search-Answers bag ts key h, answers-Answers bag ts keys h)

-- A lookup of 1 to 32 keys after any changes of an empty classifier: it has a result, in which each
-- key has a rule that matches it and that is in the list of the rules inserted and not removed, or
-- no rule if none of the list matches it.
pub dpcls_lookup-bag_after :
    (publish : List Subtable → List Subtable) (lookup_func : Subtable → FlowKey → Option Rule)
    → IsPublish publish
    → IsLookup lookup_func
    → (cs : List Change) (keys : List FlowKey) → 0 < length keys
    → length keys ≤ 32
    → (state : LookupState) × (dpcls_lookup lookup_func (run_changes publish [] cs) keys ≡ ok state)
      × All (λ slot. Answers (bag_after [] cs) slot.key slot.rule) state.slots
dpcls_lookup-bag_after publish lookup_func lawful correct cs keys h k =
    let ts = run_changes publish [] cs in
    let holds = run_changes-Holds publish lawful [] [] cs Holds-nil in
    (
      _,
      dpcls_lookup-search lookup_func ts keys h k,
      answers-Answers lookup_func correct (bag_after [] cs) ts keys holds,
    )
