-- ===== src/Examples/Preflighting.antt =====
-- A preflight in a shared workspace, where every condition holds and one command runs.
use dev_platform.Base.{
  ◌≡◌, refl, String, true, false, none, List, [], ◌∷◌, length, is_empty, if◌then◌else◌,
}
use dev_platform.Base.Json.{pos, str, arr, obj, end, item, close, field}
use dev_platform.Base.Result.{ok, err}
use dev_platform.Preflight.{
  passed, repaired, ConditionResult, refusal, failure, Condition, run_preflight,
}
use dev_platform.Preflight.Conditions.{admitted, Answers, conditions}
use dev_platform.Preflight.Verdict.{stopped_lines, shown_results, run_preflight_lem}
use dev_platform.Preflight.Clear.{
  IsShared, IsAdmitted, IsFresh, IsCurrent, IsPassing, run_preflight-IsClear,
}

abbrev answers : Answers
answers = record {
  branch = "task/1";
  root = "/w/1";
  shared = record {
    is_applicable = ok true;
    at_root = ok ("scripts/a.py" ∷ []);
    is_same = true;
    at_integration = ok [];
  };
  scope = record {
    scope_gate_waiver = none;
    is_required = ok true;
    gate = admitted;
    blocked = ok tt;
  };
  base = record {
    task_base_waiver = none;
    observed = ok (record {
      reconcile_required = false;
      state = "current";
      target = "origin/main";
      authoritative_sha = "abc";
    });
  };
  stale = record { evidence_waiver = none; evidence = ok ("current", "fresh") };
  gates = record {
    is_present = ok true;
    file_name = "checks.toml";
    config = ok (
        field "settings" (obj (field "preflight_commands" (arr (item (str "make lint") end)) close))
          close);
    no_get = λ j. failure "no get" "AttributeError";
    ran = λ command. ok (pos 0, "done");
  };
}

abbrev results : List (String × ConditionResult)
results =
    (
      "shared-workspace",
      record {
        state = repaired;
        detail = "repaired n path(s) owned by this account: scripts/a.py";
      },
    )
    ∷ (
      "board-claim-and-scope",
      record {
        state = passed;
        detail = "claim for task/1 found; no unacknowledged hard scope overlap";
      },
    )
    ∷ (
      "task-base",
      record { state = passed; detail = "task is current relative to origin/main (abc)" },
    )
    ∷ ("task-evidence", record { state = passed; detail = "fresh" })
    ∷ (
      "project-cheap-gates",
      record { state = passed; detail = "n project cheap gate command(s) passed" },
    )
    ∷ []

preflight_returns : run_preflight (conditions (λ n. "n") (λ z. "z") answers) ≡ ok results
unfolding run_preflight conditions
preflight_returns = refl

run_preflight-IsClear_example :
    IsShared answers.shared
    × IsAdmitted answers.scope
    × IsFresh answers.base
    × IsCurrent answers.stale
    × IsPassing answers.gates
run_preflight-IsClear_example =
    run_preflight-IsClear (λ n. "n") (λ z. "z") answers results preflight_returns

abbrev two_conditions : List Condition
two_conditions =
    record { id = "a"; checked = err (refusal "no") }
    ∷ record { id = "b"; checked = err (failure "" "OSError") }
    ∷ []

run_preflight_lem_example : run_preflight two_conditions ≡ (
    if is_empty (stopped_lines two_conditions)
    then ok (shown_results two_conditions)
    else err (record {
      violated = length (stopped_lines two_conditions);
      named = stopped_lines two_conditions;
    }))
run_preflight_lem_example = run_preflight_lem two_conditions
