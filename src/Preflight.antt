-- ===== src/Preflight.antt =====
-- `template/scripts/lifecycle_preflight.py`: the conditions of a lifecycle command and their joint evaluation. What
-- other scripts answer to a condition is an input of its check.
pub mod Conditions
pub mod Verdict
pub mod Clear
use dev_platform.Base.{
  ℕ, suc, ◌+◌, String, ◌<>◌, Bool, true, false, not, ◌&&◌, ◌||◌, Option, none, some, ◌==◌, ◌=?◌,
  List, [], ◌∷◌, ◌++◌, length, is_empty, if◌then◌else◌,
}
use dev_platform.Base.Result.{Result, err, ok, ◌>>=◌}

pub data ConditionState : Type 0 where
  passed : ConditionState
  repaired : ConditionState
  not_applicable : ConditionState
  refused : ConditionState

pub record ConditionResult : Type 0 where
  pub state : ConditionState
  pub detail : String

-- How the check of a condition ends early: with a `PreflightRefusal`, or with any other exception. Its text is `str`
-- of the exception, and its kind the name of the type.
pub data Stopped : Type 0 where
  refusal : String → Stopped
  failure : String → String → Stopped

-- A condition, with what its check does.
pub record Condition : Type 0 where
  pub id : String
  pub checked : Result Stopped ConditionResult

-- `exc if str(exc) else type(exc).__name__`
unfoldable pub exception_text : String → String → String
exception_text text kind = if text == "" then kind else text

-- The detail of a condition that stopped.
unfoldable pub stop_detail : Stopped → String
unfolding exception_text
stop_detail (refusal text) = text
stop_detail (failure text kind) = "cannot be evaluated: " <> exception_text text kind

unfoldable pub refusal_line : String → Stopped → String
unfolding stop_detail
refusal_line id stop = "[" <> id <> "] " <> stop_detail stop

-- The results and the refusals so far.
pub record Progress : Type 0 where
  pub results : List (String × ConditionResult)
  pub refusals : List String

unfoldable pub note_checked : String → Result Stopped ConditionResult → Progress → Progress
unfolding refusal_line stop_detail
note_checked id (err stop) p = record {
  results = p.results ++ ((id, record { state = refused; detail = stop_detail stop }) ∷ []);
  refusals = p.refusals ++ (refusal_line id stop ∷ []);
}
note_checked id (ok result) p = record p { results = p.results ++ ((id, result) ∷ []) }

unfoldable pub run_conditions : List Condition → Progress → Progress
unfolding note_checked
run_conditions [] p = p
run_conditions (c ∷ cs) p = run_conditions cs (note_checked c.id c.checked p)

-- The exit, with the number of the refusals and their lines, or the results.
pub record Exit : Type 0 where
  pub violated : ℕ
  pub named : List String

unfoldable pub ended : Progress → Result Exit (List (String × ConditionResult))
ended p =
    if is_empty p.refusals
    then ok p.results
    else err (record { violated = length p.refusals; named = p.refusals })

unfoldable pub run_preflight : List Condition → Result Exit (List (String × ConditionResult))
unfolding run_conditions ended
run_preflight conditions =
    ended (run_conditions conditions (record { results = []; refusals = [] }))
