-- ===== src/Preflight/Verdict.antt =====
-- The joint evaluation hides no refusal, and lets through only what each condition lets through.
use dev_platform.Base.{
  ◌≡◌, refl, ◌∙◌, String, List, [], ◌∷◌, ◌++◌, length, is_empty, if◌then◌else◌, map,
}
use mathlib.Core.List.{append-nil, append_assoc}
use dev_platform.Base.Result.{Result, err, ok}
use dev_platform.Preflight.{
  ConditionResult, refused, Stopped, Condition, refusal_line, stop_detail, Progress, note_checked,
  run_conditions, ended, run_preflight,
}

abbrev pub add_line : String → Result Stopped ConditionResult → List String → List String
add_line id (err stop) later = refusal_line id stop ∷ later
add_line id (ok result) later = later

-- The lines of the conditions that stopped, in their order.
abbrev pub stopped_lines : List Condition → List String
stopped_lines [] = []
stopped_lines (c ∷ cs) = add_line c.id c.checked (stopped_lines cs)

abbrev pub shown_result : String → Result Stopped ConditionResult → String × ConditionResult
shown_result id (err stop) = (id, record { state = refused; detail = stop_detail stop })
shown_result id (ok result) = (id, result)

abbrev pub shown_results : List Condition → List (String × ConditionResult)
shown_results = map (λ c. shown_result c.id c.checked)

abbrev extended : Progress → List (String × ConditionResult) → List String → Progress
extended p results refusals = record {
  results = p.results ++ results;
  refusals = p.refusals ++ refusals;
}

added :
    (id : String) (answer : Result Stopped ConditionResult) (cs : List Condition) (p : Progress)
    → extended (note_checked id answer p) (shown_results cs) (stopped_lines cs)
      ≡ extended p
          (shown_result id answer ∷ shown_results cs)
          (add_line id answer (stopped_lines cs))
unfolding note_checked
added id (err stop) cs p =
    rw
      (
        append_assoc p.results (shown_result id (err stop) ∷ []) (shown_results cs),
        append_assoc p.refusals (refusal_line id stop ∷ []) (stopped_lines cs),
      )
      refl
added id (ok result) cs p =
    rw (append_assoc p.results (shown_result id (ok result) ∷ []) (shown_results cs)) refl

run_conditions_lem :
    (cs : List Condition) (p : Progress)
    → run_conditions cs p ≡ extended p (shown_results cs) (stopped_lines cs)
unfolding run_conditions
run_conditions_lem [] p = rw (append-nil p.results, append-nil p.refusals) refl
run_conditions_lem (c ∷ cs) p =
    run_conditions_lem cs (note_checked c.id c.checked p) ∙ added c.id c.checked cs p

-- For any conditions, the preflight returns the result of each in order where none stops; else it exits
-- with the line of each that stopped, in order, and their number.
pub run_preflight_lem :
    (cs : List Condition)
    → run_preflight cs ≡ (
        if is_empty (stopped_lines cs)
        then ok (shown_results cs)
        else err (record { violated = length (stopped_lines cs); named = stopped_lines cs }))
unfolding run_preflight ended
run_preflight_lem cs = rw (run_conditions_lem cs (record { results = []; refusals = [] })) refl
