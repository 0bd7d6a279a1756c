-- ===== src/Routing/Gate/Proven.antt =====
-- What the evidence of a route that passes the gate shows.
use mathlib.Core.Path.{subst}
use dev_platform.Base.{
  ◌≡◌, refl, String, Bool, true, false, ◌||◌, Option, none, some, inl, inr, ◌⊎◌, if◌then◌else◌,
  Bool-cases, and_left, and_right, implied, ◌∙◌, ap,
}
use dev_platform.Base.Json.{Json, null, bool, int, float, str, arr, obj, Fields, lookup}
use dev_platform.Base.Result.{Result, err, ok, >>=-eq-ok, ok-injective, both_ok, err-ok}
use dev_platform.Routing.{
  Refusal, unverified_claude, require, is_text, is_nonblank, is_exactly, Route,
}
use dev_platform.Routing.Evidence.{
  is_clean, require_clean_postcheck, is_claimed, retention_policy, is_truthy,
  sandboxed_claude_completed,
}
use dev_platform.Routing.Gate.{
  is_policy, is_owner_approved, is_plan_approval, is_recovered_run, is_clean_run, retained_checks,
  retained_gate, codex_gate, claude_gate, outcome_gate, require_routing_gate,
}

abbrev pub HasCleanPostcheck : Fields → Type 0
HasCleanPostcheck execution = is_clean (lookup "postcheck" execution) ≡ true

-- The parent kept the work: nothing was launched, for a reason and under the policy that the route asks for.
abbrev pub IsRetained : (Json → Json → Bool) → Route → Fields → Type 0
IsRetained same route execution =
    (retained : Fields) × (lookup "retained" execution ≡ some (obj retained))
    × (is_text "supervisor" (lookup "role" retained) ≡ true)
    × (is_policy (retention_policy route) (lookup "policy" retained) ≡ true)
    × (is_exactly false (lookup "launched" execution) ≡ true)
    × (is_nonblank (lookup "reason" retained) ≡ true)
    × (is_owner_approved (retention_policy route) ≡ true
        → is_plan_approval same retained route.execution_plan ≡ true)
    × HasCleanPostcheck execution

-- Codex was launched, and its run ended cleanly or was recovered after a review.
abbrev pub IsCodexRun : (String → Bool) → Route → Fields → Type 0
IsCodexRun is_zero_float route execution =
    (is_text "codex" (some route.provider) ≡ true)
    × (is_truthy is_zero_float (lookup "launched" execution) ≡ true)
    × ((is_recovered_run (lookup "recovery" execution) || is_clean_run is_zero_float execution)
        ≡ true)

-- Claude ran in the sandbox to its end, or claims a run that the containment check found clean.
abbrev pub IsClaudeRun : (String → Bool) → Route → Fields → Type 0
IsClaudeRun is_zero_float route execution =
    (is_text "codex" (some route.provider) ≡ false)
    × ((sandboxed_claude_completed is_zero_float execution ≡ true)
        ⊎ ((is_claimed execution ≡ true) × HasCleanPostcheck execution))

require_lem : (b : Bool) (refusal : Refusal) {u : Unit} → require b refusal ≡ ok u → b ≡ true
unfolding require
require_lem true refusal h = refl
require_lem false refusal h = cc

postcheck_clean :
    (execution : Fields) {u : Unit}
    → require_clean_postcheck execution ≡ ok u
    → HasCleanPostcheck execution
unfolding require_clean_postcheck
postcheck_clean execution h = require_lem _ _ h

module _ (same : Json → Json → Bool) (is_zero_float : String → Bool) where
  retained_lem :
      (route : Route) (execution : Fields) (value : Option Json) {u : Unit}
      → lookup "retained" execution ≡ value
      → retained_gate same route execution value ≡ ok u
      → IsRetained same route execution
  unfolding retained_gate retained_checks
  retained_lem route execution (some (obj retained)) e h =
      let (f3, postcheck) = both_ok _ _ h in
      let (f2, approval) = both_ok _ _ f3.1 in
      let (f1, reason) = both_ok _ _ f2.1 in
      let metadata = require_lem _ _ f1.1 in
      let kept = require_lem _ _ reason in
      (
        retained,
        e,
        and_left _ _ metadata,
        and_right _ _ metadata,
        and_left _ _ kept,
        and_right _ _ kept,
        implied (require_lem _ _ approval),
        postcheck_clean execution postcheck,
      )
  retained_lem route execution none e h = cc
  retained_lem route execution (some null) e h = cc
  retained_lem route execution (some (bool b)) e h = cc
  retained_lem route execution (some (int z)) e h = cc
  retained_lem route execution (some (float f)) e h = cc
  retained_lem route execution (some (str s)) e h = cc
  retained_lem route execution (some (arr js)) e h = cc

  codex_lem :
      (execution : Fields) {u : Unit}
      → codex_gate is_zero_float execution ≡ ok u
      → (is_truthy is_zero_float (lookup "launched" execution) ≡ true)
        × ((is_recovered_run (lookup "recovery" execution) || is_clean_run is_zero_float execution)
            ≡ true)
  unfolding codex_gate
  codex_lem execution h =
      let (launched, clean) = both_ok _ _ h in (require_lem _ _ launched.1, require_lem _ _ clean)

  claude_lem :
      (execution : Fields) {u : Unit}
      → claude_gate is_zero_float execution ≡ ok u
      → (sandboxed_claude_completed is_zero_float execution ≡ true)
        ⊎ ((is_claimed execution ≡ true) × HasCleanPostcheck execution)
  unfolding claude_gate
  claude_lem execution h =
      chosen (sandboxed_claude_completed is_zero_float execution) (is_claimed execution) h
    where
      chosen :
          (a b : Bool) {u : Unit}
          → (if a
              then ok tt
              else if b
              then require_clean_postcheck execution
              else err unverified_claude)
            ≡ ok u
          → (a ≡ true) ⊎ ((b ≡ true) × HasCleanPostcheck execution)
      chosen true b k = inl refl
      chosen false true k = inr (refl, postcheck_clean execution k)
      chosen false false k = cc

  outcome_lem :
      (route : Route) (execution : Fields) {u : Unit}
      → outcome_gate same is_zero_float route (some execution) ≡ ok u
      → IsRetained same route execution
        ⊎ (IsCodexRun is_zero_float route execution ⊎ IsClaudeRun is_zero_float route execution)
  unfolding outcome_gate
  outcome_lem route execution h =
      elim (Bool-cases (is_text "retained" (lookup "outcome" execution))) [
        | inl e ↦ inl (retained_lem route execution (lookup "retained" execution) refl (rw e at h))
        | inr e ↦ elim (Bool-cases (is_text "codex" (some route.provider))) [
          | inl c ↦
              let (launched, clean) = codex_lem execution (rw (e, c) at h) in
              inr (inl (c, launched, clean))
          | inr c ↦ inr (inr (c, claude_lem execution (rw (e, c) at h)))
        ]
      ]

  no_execution : (route : Route) {u : Unit} → outcome_gate same is_zero_float route none ≡ ok u → ⊥
  unfolding outcome_gate
  no_execution route h = elim (Bool-cases (is_text "complex" (some route.profile))) [
    | inl e ↦ err-ok (rw e at h)
    | inr e ↦ err-ok (rw e at h)
  ]

  has_execution :
      (route : Route) (execution : Option Fields) {u : Unit}
      → outcome_gate same is_zero_float route execution ≡ ok u
      → (e : Fields) × (execution ≡ some e)
        × (IsRetained same route e
            ⊎ (IsCodexRun is_zero_float route e ⊎ IsClaudeRun is_zero_float route e))
  has_execution route none h = absurd (no_execution route h)
  has_execution route (some execution) h = (execution, refl, outcome_lem route execution h)

  -- A route that passes is the one that was read. It has an execution that the parent retained: with a
  -- supervisor's reason, under the policy that the route asks for or none where it asks for none, with the
  -- plan's owner approval where that is the policy, nothing launched and a clean postcheck. Or the provider
  -- is Codex, launched, with a clean or a recovered run. Or it is another, with a sandboxed run to its end
  -- or a claim with a clean postcheck.
  pub require_routing_gate-proven :
      (durable : Result Refusal Route) (route : Route)
      → require_routing_gate same is_zero_float durable ≡ ok route
      → (durable ≡ ok route)
        × ((execution : Fields) × (route.execution ≡ some execution)
            × (IsRetained same route execution
                ⊎ (IsCodexRun is_zero_float route execution
                    ⊎ IsClaudeRun is_zero_float route execution)))
  unfolding require_routing_gate
  require_routing_gate-proven durable route h =
      let (r, read, k) = >>=-eq-ok durable _ h in
      let (front, returned) = both_ok _ _ k in
      let (supported, outcome) = both_ok _ _ front.1 in
      let same_route = ok-injective returned in
      (
        read ∙ ap ok same_route,
        subst
            (λ q.
              (execution : Fields) × (q.execution ≡ some execution)
              × (IsRetained same q execution
                  ⊎ (IsCodexRun is_zero_float q execution ⊎ IsClaudeRun is_zero_float q execution)))
            same_route (has_execution r r.execution outcome),
      )
