-- ===== src/Routing/Early/Blocked.antt =====
-- Under a plan of delegation, content that no child wrote does not pass.
use mathlib.Core.Path.{subst}
use dev_platform.Base.{
  ◌≡◌, refl, ◌∙◌, sym, String, Bool, true, false, Option, none, some, ◌||◌, ◌&&◌, ◌⊎◌, inl, inr,
  List, [], ◌∷◌, ◌++◌, contains, contains-append, contains-keep, is_empty, arith, Bool-cases, ◌==◌,
}
use dev_platform.Base.Sorting.{is_empty-sorted_set}
use dev_platform.Base.Json.{Json, Fields, close, field, lookup, keys}
use dev_platform.Base.Result.{Result, ok, >>=-eq-ok, err-ok}
use dev_platform.Routing.{Refusal, plan_retained, is_text, Route}
use dev_platform.Routing.Early.{
  Content, content_pre, is_changed, changed_keys, content_differences, accepted_if_same,
  undelegated_content, unless_real, planned, routed_content, recorded_content, early_routing_gate,
  has_real_delegation,
}

-- The path is in neither, or in both with the same value.
abbrev pub IsUnchanged : (Json → Json → Bool) → Option Json → Option Json → Type 0
IsUnchanged same a b = ((a ≡ none) × (b ≡ none)) ⊎ (is_changed same a b ≡ false)

-- Each path holds what it held.
abbrev pub IsSameContent : (Json → Json → Bool) → Content → Content → Type 0
IsSameContent same before after =
    (path : String)
    → IsUnchanged same (lookup path before.committed) (lookup path after.committed)
      × IsUnchanged same (lookup path before.paths) (lookup path after.paths)

lookup-contains :
    (path : String) (fs : Fields) {j : Json}
    → lookup path fs ≡ some j
    → contains (keys fs) path ≡ true
unfolding lookup keys
lookup-contains path close h = cc
lookup-contains path (field k v fs) h = elim (Bool-cases (path == k)) [
  | inl e ↦ ground arith
  | inr e ↦ later e (lookup-contains path fs (rw e at h))
]
  where
    later :
        (path == k) ≡ false
        → contains (keys fs) path ≡ true
        → (path == k || contains (keys fs) path) ≡ true
    later e c = ground arith

empty_part :
    (xs ys : List String) → is_empty (xs ++ ys) ≡ true → (is_empty xs ≡ true) × (is_empty ys ≡ true)
empty_part [] ys h = (refl, h)
empty_part (x ∷ xs) ys h = cc

contains_empty : (xs : List String) (a : String) → is_empty xs ≡ true → contains xs a ≡ false
contains_empty [] a h = refl
contains_empty (x ∷ xs) a h = cc

first_true : (a b : Bool) → a ≡ true → (a || b) ≡ true
first_true a b h = ground arith

second_true : (a b : Bool) → b ≡ true → (a || b) ≡ true
second_true a b h = ground arith

module _ (same : Json → Json → Bool) where
  kept_out :
      (old new : Fields) (path : String)
      → is_empty (changed_keys same old new) ≡ true
      → contains (keys old ++ keys new) path ≡ true
      → is_changed same (lookup path old) (lookup path new) ≡ false
  unfolding changed_keys
  kept_out old new path h c =
      let out = contains_empty _ path h in
      let both =
        sym (
          contains-keep (λ p. is_changed same (lookup p old) (lookup p new)) (keys old ++ keys new)
            path)
        ∙ out in
      second_false c both
    where
      second_false : {a b : Bool} → a ≡ true → (a && b) ≡ false → b ≡ false
      second_false e k = ground arith

  changed_keys-IsUnchanged :
      (old new : Fields) (path : String)
      → is_empty (changed_keys same old new) ≡ true
      → IsUnchanged same (lookup path old) (lookup path new)
  changed_keys-IsUnchanged old new path h = go (lookup path old) (lookup path new) refl refl
    where
      go :
          (a b : Option Json)
          → lookup path old ≡ a
          → lookup path new ≡ b
          → IsUnchanged same (lookup path old) (lookup path new)
      go none none e f = inl (e, f)
      go (some j) b e f = inr (
          kept_out old new path h (
            contains-append (keys old) (keys new) path
            ∙ first_true _ _ (lookup-contains path old e)))
      go none (some j) e f = inr (
          kept_out old new path h (
            contains-append (keys old) (keys new) path
            ∙ second_true _ _ (lookup-contains path new f)))

  same_content :
      (before after : Content)
      → is_empty (content_differences same before after) ≡ true
      → IsSameContent same before after
  unfolding content_differences
  same_content before after h path =
      let (committed, paths) = empty_part _ _ (sym (is_empty-sorted_set _) ∙ h) in
      (
        changed_keys-IsUnchanged before.committed after.committed path committed,
        changed_keys-IsUnchanged before.paths after.paths path paths,
      )

  accepted_same :
      (accepted : Option Route) (refusal : Refusal) (paths : List String) {r : Option Route}
      → accepted_if_same accepted refusal paths ≡ ok r
      → is_empty paths ≡ true
  unfolding accepted_if_same
  accepted_same accepted refusal paths h = elim (Bool-cases (is_empty paths)) [
    | inl e ↦ e
    | inr e ↦ absurd (err-ok (rw e at h))
  ]

  unreal_same :
      (route : Route) (plan : Fields) (content : Result Refusal Content) {r : Option Route}
      → unless_real same route plan content false ≡ ok r
      → (after : Content) × (content ≡ ok after) × IsSameContent same (content_pre plan) after
  unfolding unless_real undelegated_content
  unreal_same route plan content h =
      let (after, e, k) = >>=-eq-ok content _ h in
      (after, e, same_content (content_pre plan) after (accepted_same (some route) _ _ k))

  planned_same :
      (route : Route) (plan : Fields) (content : Result Refusal Content) (retained : Bool)
      {r : Option Route}
      → retained ≡ false
      → has_real_delegation route ≡ ok false
      → planned same route plan content retained ≡ ok r
      → (after : Content) × (content ≡ ok after) × IsSameContent same (content_pre plan) after
  unfolding planned
  planned_same route plan content true e real h = cc
  planned_same route plan content false e real h = unreal_same route plan content (rw real at h)

  -- Where the early gate accepts an active task's record that has a plan, which is not retained by the
  -- supervisor, and no real delegation, the content of the worktree is known, and each committed path and
  -- each path of the worktree is in neither, or holds the same value as when the plan was made.
  pub early_routing_gate-IsSameContent :
      (route : Route) (plan : Fields) (content : Result Refusal Content) (accepted : Option Route)
      → route.execution_plan ≡ some plan
      → is_text plan_retained (lookup "mode" plan) ≡ false
      → has_real_delegation route ≡ ok false
      → early_routing_gate same true (some (ok route)) content ≡ ok accepted
      → (after : Content) × (content ≡ ok after) × IsSameContent same (content_pre plan) after
  unfolding early_routing_gate recorded_content routed_content
  early_routing_gate-IsSameContent route plan content accepted e mode real h =
      planned_same route plan content (is_text plan_retained (lookup "mode" plan)) mode real
        (subst (λ o. routed_content same route content o ≡ ok accepted) e h)
