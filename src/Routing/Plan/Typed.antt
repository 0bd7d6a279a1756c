-- ===== src/Routing/Plan/Typed.antt =====
-- The types of the values in a plan that is accepted, on which later subscripts rely.
use dev_platform.Base.{
  ◌≡◌, refl, Bool, true, false, Option, none, some, [], ◌∷◌, not, arith, inl, inr, ◌⊎◌, and_left,
  and_right, implied, or_else, not_both,
}
use dev_platform.Base.Json.{Json, null, bool, int, float, str, arr, obj, Fields, lookup}
use dev_platform.Base.Result.{ok, both_ok}
use dev_platform.Routing.{
  owner_approved_policy, has_key, plan_retained, self_reported, platform_observed, is_text, is_none,
}
use dev_platform.Routing.Plan.Values.{
  IsOneOf, IsNonempty, IsObject, needed, one_of-IsOneOf, is_nonempty-IsNonempty, is_dict-IsObject,
}
use dev_platform.Routing.Plan.Approved.{IsApproved, validate_owner_approved_plan-IsApproved}
use dev_platform.Routing.Plan.{
  validate_policy, plan_modes, delegation_states, providers, is_content, validate_closed,
  validate_delegation_fields, validate_delegation, validate_plan_fields,
}

-- A dict with the two parts of the task's content.
abbrev pub IsContent : Option Json → Type 0
IsContent value =
    (pre : Fields) × (value ≡ some (obj pre))
    × IsObject (lookup "committed" pre)
    × IsObject (lookup "paths" pre)

-- A delegation that is open was launched; one that is closed has its content.
abbrev pub IsDelegation : Fields → Type 0
IsDelegation d =
    IsOneOf delegation_states (lookup "state" d)
    × IsOneOf providers (lookup "provider" d)
    × IsOneOf (self_reported ∷ platform_observed ∷ []) (lookup "launch_evidence" d)
    × (is_text "open" (lookup "state" d) ≡ true
        → is_text "not-launched" (lookup "outcome" d) ≡ false)
    × (is_text "not-launched" (lookup "outcome" d) ≡ false → IsNonempty (lookup "opened_at" d))
    × (is_text "closed" (lookup "state" d) ≡ true → IsObject (lookup "task_content_post" d))

abbrev pub IsPlan : Fields → Type 0
IsPlan plan =
    IsOneOf plan_modes (lookup "mode" plan)
    × (is_text plan_retained (lookup "mode" plan) ≡ true → IsNonempty (lookup "policy" plan))
    × (is_text owner_approved_policy (lookup "policy" plan) ≡ true → IsApproved plan)
    × (is_text owner_approved_policy (lookup "policy" plan) ≡ false
        → has_key "owner_approval" plan ≡ false)
    × IsNonempty (lookup "declared_at" plan)
    × IsContent (lookup "task_content_pre" plan)
    × ((is_none (lookup "delegation" plan) ≡ true)
        ⊎ ((d : Fields) × (lookup "delegation" plan ≡ some (obj d)) × IsDelegation d))

is_content-IsContent : (value : Option Json) → is_content value ≡ true → IsContent value
unfolding is_content
is_content-IsContent none h = cc
is_content-IsContent (some (obj pre)) h = (
  pre,
  refl,
  is_dict-IsObject (lookup "committed" pre) (and_left _ _ h),
  is_dict-IsObject (lookup "paths" pre) (and_right _ _ h),
)
is_content-IsContent (some null) h = cc
is_content-IsContent (some (bool b)) h = cc
is_content-IsContent (some (int z)) h = cc
is_content-IsContent (some (float f)) h = cc
is_content-IsContent (some (arr js)) h = cc
is_content-IsContent (some (str s)) h = cc

closed_content :
    (b : Bool) (d : Fields) {u : Unit}
    → validate_closed b d ≡ ok u
    → b ≡ true
    → IsObject (lookup "task_content_post" d)
unfolding validate_closed
closed_content false d h e = cc
closed_content true d h e =
    let (front, outcome) = both_ok _ _ h in
    let (closed_at, post) = both_ok _ _ front.1 in
    is_dict-IsObject (lookup "task_content_post" d) (needed "delegation.task_content_post" _ post)

validate_delegation_fields-IsDelegation :
    (d : Fields) {u : Unit} → validate_delegation_fields d ≡ ok u → IsDelegation d
unfolding validate_delegation_fields
validate_delegation_fields-IsDelegation d h =
    let (f6, abandoned) = both_ok _ _ h in
    let (f5, closed) = both_ok _ _ f6.1 in
    let (f4, opened) = both_ok _ _ f5.1 in
    let (f3, launched) = both_ok _ _ f4.1 in
    let (f2, evidence) = both_ok _ _ f3.1 in
    let (f1, provider) = both_ok _ _ f2.1 in
    (
      one_of-IsOneOf delegation_states (lookup "state" d) (needed "delegation.state" _ f1.1),
      one_of-IsOneOf providers (lookup "provider" d) (needed "delegation.provider" _ provider),
      one_of-IsOneOf (self_reported ∷ platform_observed ∷ []) (lookup "launch_evidence" d)
          (needed "delegation.launch_evidence" _ evidence),
      not_both (needed "delegation.open" _ launched),
      (λ e.
          is_nonempty-IsNonempty (lookup "opened_at" d)
            (or_else (needed "delegation.opened_at" _ opened) e)),
      closed_content (is_text "closed" (lookup "state" d)) d closed,
    )

validate_delegation-IsDelegation :
    (value : Option Json) {u : Unit}
    → validate_delegation value ≡ ok u
    → (is_none value ≡ true) ⊎ ((d : Fields) × (value ≡ some (obj d)) × IsDelegation d)
unfolding validate_delegation is_none
validate_delegation-IsDelegation none h = inl refl
validate_delegation-IsDelegation (some null) h = inl refl
validate_delegation-IsDelegation (some (obj d)) h =
    inr (d, refl, validate_delegation_fields-IsDelegation d h)
validate_delegation-IsDelegation (some (bool b)) h = cc
validate_delegation-IsDelegation (some (int z)) h = cc
validate_delegation-IsDelegation (some (float f)) h = cc
validate_delegation-IsDelegation (some (str s)) h = cc
validate_delegation-IsDelegation (some (arr js)) h = cc

policy-IsApproved :
    (b : Bool) (plan : Fields) {u : Unit}
    → validate_policy b plan ≡ ok u
    → b ≡ true
    → IsApproved plan
unfolding validate_policy
policy-IsApproved true plan h e = validate_owner_approved_plan-IsApproved plan h
policy-IsApproved false plan h e = cc

not-true : {b : Bool} → not b ≡ true → b ≡ false
not-true h = ground arith

policy_unapproved :
    (b : Bool) (plan : Fields) {u : Unit}
    → validate_policy b plan ≡ ok u
    → b ≡ false
    → has_key "owner_approval" plan ≡ false
unfolding validate_policy
policy_unapproved true plan h e = cc
policy_unapproved false plan h e = not-true (needed "owner_approval" _ h)

pub validate_plan_fields-IsPlan :
    (plan : Fields) {u : Unit} → validate_plan_fields plan ≡ ok u → IsPlan plan
unfolding validate_plan_fields
validate_plan_fields-IsPlan plan h =
    let (f5, delegation) = both_ok _ _ h in
    let (f4, content) = both_ok _ _ f5.1 in
    let (f3, declared) = both_ok _ _ f4.1 in
    let (f2, approved) = both_ok _ _ f3.1 in
    let (f1, policy) = both_ok _ _ f2.1 in
    (
      one_of-IsOneOf plan_modes (lookup "mode" plan) (needed "mode" _ f1.1),
      (λ e. is_nonempty-IsNonempty (lookup "policy" plan) (implied (needed "policy" _ policy) e)),
      policy-IsApproved _ plan approved,
      policy_unapproved _ plan approved,
      is_nonempty-IsNonempty (lookup "declared_at" plan) (needed "declared_at" _ declared),
      is_content-IsContent (lookup "task_content_pre" plan) (needed "task_content_pre" _ content),
      validate_delegation-IsDelegation (lookup "delegation" plan) delegation,
    )
