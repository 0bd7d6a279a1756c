-- ===== src/Routing/Plan/Approved.antt =====
-- What an accepted plan of the owner-approved policy holds.
use dev_platform.Base.{◌≡◌, refl, true, false, Option, none, some, implied}
use dev_platform.Base.Json.{Json, null, bool, int, float, str, arr, obj, Fields, lookup}
use dev_platform.Base.Result.{ok, both_ok}
use dev_platform.Routing.{plan_delegated, plan_retained, is_text, has_key}
use dev_platform.Routing.Plan.{
  is_advance, is_plan_switch, is_unrecorded, is_advance_if_there, validate_approval,
  validate_owner_approved_plan,
}
use dev_platform.Routing.Plan.Values.{
  IsNonblank, IsTextList, needed, is_nonblank-IsNonblank, is_text_list-IsTextList, is_exactly-false,
}

abbrev pub IsApproval : Fields → Type 0
IsApproval approval =
    IsNonblank (lookup "approval" approval)
    × IsNonblank (lookup "reason" approval)
    × IsNonblank (lookup "approved_at" approval)
    × IsTextList (lookup "diverged_paths" approval)
    × (has_key "integration_advance" approval ≡ true
        → is_advance (lookup "integration_advance" approval) ≡ true)

-- The switch from a delegated plan, without a delegation that was recorded.
abbrev pub IsSwitch : Option Json → Type 0
IsSwitch value =
    (switched : Fields) × (value ≡ some (obj switched))
    × (is_text plan_delegated (lookup "mode" switched) ≡ true)
    × (lookup "delegation_recorded" switched ≡ some (bool false))

abbrev pub IsApproved : Fields → Type 0
IsApproved plan =
    (is_text plan_retained (lookup "mode" plan) ≡ true)
    × ((approval : Fields) × (lookup "owner_approval" plan ≡ some (obj approval))
        × IsApproval approval)
    × IsSwitch (lookup "switched_from" plan)

validate_approval-IsApproval :
    (value : Option Json) {u : Unit}
    → validate_approval value ≡ ok u
    → is_advance_if_there value ≡ true
    → (approval : Fields) × (value ≡ some (obj approval)) × IsApproval approval
unfolding validate_approval is_advance_if_there
validate_approval-IsApproval (some (obj approval)) h a =
    let (f3, paths) = both_ok _ _ h in
    let (f2, approved_at) = both_ok _ _ f3.1 in
    let (f1, reason) = both_ok _ _ f2.1 in
    (
      approval,
      refl,
      (
        is_nonblank-IsNonblank _ (needed "owner_approval.approval" _ f1.1),
        is_nonblank-IsNonblank _ (needed "owner_approval.reason" _ reason),
        is_nonblank-IsNonblank _ (needed "owner_approval.approved_at" _ approved_at),
        is_text_list-IsTextList _ (needed "owner_approval.diverged_paths" _ paths),
        (λ e. implied a e),
      ),
    )
validate_approval-IsApproval none h a = cc
validate_approval-IsApproval (some null) h a = cc
validate_approval-IsApproval (some (bool b)) h a = cc
validate_approval-IsApproval (some (int z)) h a = cc
validate_approval-IsApproval (some (float f)) h a = cc
validate_approval-IsApproval (some (str s)) h a = cc
validate_approval-IsApproval (some (arr js)) h a = cc

switched-IsSwitch :
    (value : Option Json)
    → is_plan_switch value ≡ true
    → is_unrecorded value ≡ true
    → IsSwitch value
unfolding is_plan_switch is_unrecorded
switched-IsSwitch (some (obj switched)) h k = (switched, refl, h, is_exactly-false _ k)
switched-IsSwitch none h k = cc
switched-IsSwitch (some null) h k = cc
switched-IsSwitch (some (bool b)) h k = cc
switched-IsSwitch (some (int z)) h k = cc
switched-IsSwitch (some (float f)) h k = cc
switched-IsSwitch (some (str s)) h k = cc
switched-IsSwitch (some (arr js)) h k = cc

pub validate_owner_approved_plan-IsApproved :
    (plan : Fields) {u : Unit} → validate_owner_approved_plan plan ≡ ok u → IsApproved plan
unfolding validate_owner_approved_plan
validate_owner_approved_plan-IsApproved plan h =
    let (f4, advance) = both_ok _ _ h in
    let (f3, unrecorded) = both_ok _ _ f4.1 in
    let (f2, switched) = both_ok _ _ f3.1 in
    let (f1, approval) = both_ok _ _ f2.1 in
    (
      needed "policy" _ f1.1,
      validate_approval-IsApproval (lookup "owner_approval" plan) approval
          (needed "owner_approval.integration_advance" _ advance),
      switched-IsSwitch (lookup "switched_from" plan) (needed "switched_from" _ switched)
          (needed "switched_from.delegation_recorded" _ unrecorded),
    )
