-- ===== src/Routing/Gate.antt =====
-- `require_routing_gate`, on the record that it reads. `same` is Python's `==` of two values.
pub mod Proven
use dev_platform.Base.{
  String, Bool, true, false, not, ◌&&◌, ◌||◌, Option, none, some, ◌==◌, List, [], ◌∷◌,
  if◌then◌else◌,
}
use dev_platform.Base.Json.{Json, null, str, obj, Fields, lookup, get_or}
use dev_platform.Base.Result.{Result, err, ok, ◌>>=◌, ◌>>◌}
use dev_platform.Routing.{
  Refusal, unsupported_route, complex_without_outcome, no_outcome, retained_metadata,
  retention_reason, other_owner_approval, codex_not_launched, codex_not_clean, unverified_claude,
  owner_approved_policy, verified_external_advance, require, is_text, one_of, is_nonblank,
  is_exactly, Route,
}
use dev_platform.Routing.Plan.{providers}
use dev_platform.Routing.Evidence.{
  require_clean_postcheck, is_claimed, retention_policy, is_zero, is_truthy,
  sandboxed_claude_completed,
}

abbrev pub profiles : List String
profiles = "routine" ∷ "standard" ∷ "complex" ∷ []

-- `retained.get("policy") == policy`, where `policy` may be `None`
unfoldable pub is_policy : Option String → Option Json → Bool
unfolding is_text
is_policy (some policy) value = is_text policy value
is_policy none none = true
is_policy none (some null) = true
is_policy none value = false

unfoldable pub is_owner_approved : Option String → Bool
is_owner_approved none = false
is_owner_approved (some policy) = policy == owner_approved_policy

unfoldable pub is_recovered_run : Option Json → Bool
unfolding is_text lookup
is_recovered_run (some (obj recovery)) =
    is_text verified_external_advance (lookup "classification" recovery)
is_recovered_run _ = false

module _ (is_zero_float : String → Bool) where
  unfoldable pub is_clean_run : Fields → Bool
  unfolding is_text is_zero is_truthy lookup
  is_clean_run execution =
      is_text "completed" (lookup "outcome" execution)
      && is_zero is_zero_float (lookup "returncode" execution)
      && not (is_truthy is_zero_float (lookup "violation" execution))

  unfoldable pub codex_gate : Fields → Result Refusal Unit
  unfolding require is_truthy is_recovered_run is_clean_run lookup
  codex_gate execution =
      require (is_truthy is_zero_float (lookup "launched" execution)) codex_not_launched
      >> require (is_recovered_run (lookup "recovery" execution) || is_clean_run execution)
          codex_not_clean

  unfoldable pub claude_gate : Fields → Result Refusal Unit
  unfolding sandboxed_claude_completed is_claimed require_clean_postcheck
  claude_gate execution =
      if sandboxed_claude_completed is_zero_float execution
      then ok tt
      else if is_claimed execution
      then require_clean_postcheck execution
      else err unverified_claude

module _ (same : Json → Json → Bool) where
  -- The approval in the record of the retention is the one in the plan.
  unfoldable pub is_plan_approval : Fields → Option Fields → Bool
  unfolding get_or lookup
  is_plan_approval retained none = false
  is_plan_approval retained (some plan) =
      same (get_or null (lookup "owner_approval" retained))
        (get_or null (lookup "owner_approval" plan))

  unfoldable pub retained_checks : Route → Fields → Fields → Option String → Result Refusal Unit
  unfolding require is_text is_policy is_exactly is_nonblank is_owner_approved is_plan_approval
      require_clean_postcheck lookup
  retained_checks route execution retained policy =
      require
        (is_text "supervisor" (lookup "role" retained)
          && is_policy policy (lookup "policy" retained))
        retained_metadata
      >> require
          (is_exactly false (lookup "launched" execution) && is_nonblank (lookup "reason" retained))
          retention_reason
      >> require (not (is_owner_approved policy) || is_plan_approval retained route.execution_plan)
          other_owner_approval
      >> require_clean_postcheck execution

  unfoldable pub retained_gate : Route → Fields → Option Json → Result Refusal Unit
  unfolding retained_checks retention_policy
  retained_gate route execution (some (obj retained)) =
      retained_checks route execution retained (retention_policy route)
  retained_gate route execution j = err retained_metadata

module _ (same : Json → Json → Bool) (is_zero_float : String → Bool) where
  unfoldable pub outcome_gate : Route → Option Fields → Result Refusal Unit
  unfolding is_text retained_gate codex_gate claude_gate lookup
  outcome_gate route none =
      if is_text "complex" (some route.profile) then err complex_without_outcome else err no_outcome
  outcome_gate route (some execution) =
      if is_text "retained" (lookup "outcome" execution)
      then retained_gate same route execution (lookup "retained" execution)
      else if is_text "codex" (some route.provider)
      then codex_gate is_zero_float execution
      else claude_gate is_zero_float execution

  unfoldable pub require_routing_gate : Result Refusal Route → Result Refusal Route
  unfolding require one_of outcome_gate
  require_routing_gate durable = durable >>= λ route.
      require (one_of providers (some route.provider) && one_of profiles (some route.profile))
        unsupported_route
      >> outcome_gate route route.execution
      >> ok route
