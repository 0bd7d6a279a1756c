-- ===== src/Routing/Plan.antt =====
-- `_validate_execution_plan` and `_validate_owner_approved_plan`. Each text names the field that is refused.
pub mod Values
pub mod Approved
pub mod Typed
use dev_platform.Base.{
  String, Bool, true, false, not, ◌&&◌, ◌||◌, Option, none, some, ◌==◌, List, [], ◌∷◌, all,
  contains, if◌then◌else◌,
}
use dev_platform.Base.Json.{Json, null, obj, arr, Items, end, item, Fields, lookup, keys}
use dev_platform.Base.Result.{Result, err, ok, ◌>>◌, ◌>>=◌}
use dev_platform.Routing.{
  Refusal, invalid_plan, plan_delegated, plan_retained, owner_approved_policy, self_reported,
  platform_observed, verified_external_advance, require, is_text, one_of, is_nonempty, is_nonblank,
  is_dict, is_exactly, is_none, has_key,
}

abbrev pub plan_modes : List String
plan_modes = plan_delegated ∷ plan_retained ∷ []

abbrev pub delegation_states : List String
delegation_states = "open" ∷ "closed" ∷ []

abbrev pub providers : List String
providers = "codex" ∷ "claude" ∷ []

-- The test of a field, with the field named where it is refused.
unfoldable pub need : String → Bool → Result Refusal Unit
unfolding require
need name holds = require holds (invalid_plan name)

unfoldable pub all_nonempty : Items → Bool
unfolding is_nonempty
all_nonempty end = true
all_nonempty (item j js) = is_nonempty (some j) && all_nonempty js

-- a list that is not empty, of texts that are not
unfoldable pub is_text_list : Option Json → Bool
unfolding all_nonempty
is_text_list (some (arr (item j js))) = all_nonempty (item j js)
is_text_list _ = false

abbrev pub advance_keys : List String
advance_keys = "classification" ∷ "before_head" ∷ "after_head" ∷ []

-- An advance has exactly the three keys.
unfoldable pub is_advance : Option Json → Bool
unfolding has_key is_text is_nonempty lookup keys
is_advance (some (obj advance)) =
    all (contains advance_keys) (keys advance)
    && all (λ key. has_key key advance) advance_keys
    && is_text verified_external_advance (lookup "classification" advance)
    && is_nonempty (lookup "before_head" advance)
    && is_nonempty (lookup "after_head" advance)
is_advance _ = false

unfoldable pub is_plan_switch : Option Json → Bool
unfolding is_text lookup
is_plan_switch (some (obj switched)) = is_text plan_delegated (lookup "mode" switched)
is_plan_switch _ = false

-- `switched_from.get("delegation_recorded") is False`, of a dict
unfoldable pub is_unrecorded : Option Json → Bool
unfolding is_exactly lookup
is_unrecorded (some (obj switched)) = is_exactly false (lookup "delegation_recorded" switched)
is_unrecorded _ = false

-- The tests of the approval itself.
unfoldable pub validate_approval : Option Json → Result Refusal Unit
unfolding need is_nonblank is_text_list lookup
validate_approval (some (obj approval)) =
    need "owner_approval.approval" (is_nonblank (lookup "approval" approval))
    >> need "owner_approval.reason" (is_nonblank (lookup "reason" approval))
    >> need "owner_approval.approved_at" (is_nonblank (lookup "approved_at" approval))
    >> need "owner_approval.diverged_paths" (is_text_list (lookup "diverged_paths" approval))
validate_approval _ = err (invalid_plan "owner_approval")

unfoldable pub is_advance_if_there : Option Json → Bool
unfolding has_key is_advance lookup
is_advance_if_there (some (obj approval)) =
    not (has_key "integration_advance" approval)
    || is_advance (lookup "integration_advance" approval)
is_advance_if_there _ = true

unfoldable pub validate_owner_approved_plan : Fields → Result Refusal Unit
unfolding need is_text validate_approval is_plan_switch is_unrecorded is_advance_if_there lookup
validate_owner_approved_plan plan =
    need "policy" (is_text plan_retained (lookup "mode" plan))
    >> validate_approval (lookup "owner_approval" plan)
    >> need "switched_from" (is_plan_switch (lookup "switched_from" plan))
    >> need "switched_from.delegation_recorded" (is_unrecorded (lookup "switched_from" plan))
    >> need "owner_approval.integration_advance"
        (is_advance_if_there (lookup "owner_approval" plan))

unfoldable pub validate_policy : Bool → Fields → Result Refusal Unit
unfolding validate_owner_approved_plan need has_key
validate_policy true plan = validate_owner_approved_plan plan
validate_policy false plan = need "owner_approval" (not (has_key "owner_approval" plan))

-- `task_content_pre` holds the two parts that are compared.
unfoldable pub is_content : Option Json → Bool
unfolding is_dict lookup
is_content (some (obj pre)) = is_dict (lookup "committed" pre) && is_dict (lookup "paths" pre)
is_content _ = false

unfoldable pub is_abandonment : Option Json → Bool
unfolding is_nonblank is_dict lookup
is_abandonment (some (obj a)) = is_nonblank (lookup "reason" a) && is_dict (lookup "observation" a)
is_abandonment _ = false

unfoldable pub validate_closed : Bool → Fields → Result Refusal Unit
unfolding need is_nonempty is_dict is_text lookup
validate_closed false d = ok tt
validate_closed true d =
    need "delegation.closed_at" (is_nonempty (lookup "closed_at" d))
    >> need "delegation.task_content_post" (is_dict (lookup "task_content_post" d))
    >> need "delegation.outcome"
        (not (is_text "codex" (lookup "provider" d)) || is_nonempty (lookup "outcome" d))

unfoldable pub validate_abandoned : Bool → Fields → Result Refusal Unit
unfolding need is_text is_abandonment lookup
validate_abandoned false d = ok tt
validate_abandoned true d =
    need "delegation.abandoned"
      (is_text "closed" (lookup "state" d) && is_text "codex" (lookup "provider" d))
    >> need "delegation.abandonment" (is_abandonment (lookup "abandonment" d))

unfoldable pub validate_delegation_fields : Fields → Result Refusal Unit
unfolding need one_of is_text is_nonempty validate_closed validate_abandoned lookup
validate_delegation_fields d =
    let not_launched = is_text "not-launched" (lookup "outcome" d) in
    need "delegation.state" (one_of delegation_states (lookup "state" d))
    >> need "delegation.provider" (one_of providers (lookup "provider" d))
    >> need "delegation.launch_evidence"
        (one_of (self_reported ∷ platform_observed ∷ []) (lookup "launch_evidence" d))
    >> need "delegation.open" (not (is_text "open" (lookup "state" d) && not_launched))
    >> need "delegation.opened_at" (not_launched || is_nonempty (lookup "opened_at" d))
    >> validate_closed (is_text "closed" (lookup "state" d)) d
    >> validate_abandoned (is_text "abandoned" (lookup "outcome" d)) d

unfoldable pub validate_delegation : Option Json → Result Refusal Unit
unfolding validate_delegation_fields
validate_delegation none = ok tt
validate_delegation (some null) = ok tt
validate_delegation (some (obj d)) = validate_delegation_fields d
validate_delegation (some j) = err (invalid_plan "delegation")

unfoldable pub validate_plan_fields : Fields → Result Refusal Unit
unfolding need one_of is_text is_nonempty validate_policy is_content validate_delegation lookup
validate_plan_fields plan =
    need "mode" (one_of plan_modes (lookup "mode" plan))
    >> need "policy"
        (not (is_text plan_retained (lookup "mode" plan)) || is_nonempty (lookup "policy" plan))
    >> validate_policy (is_text owner_approved_policy (lookup "policy" plan)) plan
    >> need "declared_at" (is_nonempty (lookup "declared_at" plan))
    >> need "task_content_pre" (is_content (lookup "task_content_pre" plan))
    >> validate_delegation (lookup "delegation" plan)

-- The plan that is accepted, `none` for the plan that is absent.
unfoldable pub validate_execution_plan : Option Json → Result Refusal (Option Fields)
unfolding validate_plan_fields
validate_execution_plan none = ok none
validate_execution_plan (some null) = ok none
validate_execution_plan (some (obj plan)) = validate_plan_fields plan >> ok (some plan)
validate_execution_plan (some j) = err (invalid_plan "execution_plan")
