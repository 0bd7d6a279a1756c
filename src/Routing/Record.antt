-- ===== src/Routing/Record.antt =====
-- `_route_from_payload`. `lower` is `str.lower`.
use dev_platform.Base.{
  String, Bool, true, false, ◌&&◌, Option, none, some, ◌==◌, List, [], ◌∷◌, all,
}
use dev_platform.Base.Json.{Json, null, str, arr, obj, Fields, lookup, get_or, as_fields}
use dev_platform.Base.Result.{Result, err, ok, ◌>>=◌, ◌>>◌}
use dev_platform.Routing.{
  Refusal, incomplete_record, foreign_identity, uncaught, linked_worktree, require, has_key,
  is_text, Route,
}
use dev_platform.Routing.Plan.{validate_execution_plan}

abbrev pub required_keys : List String
required_keys =
    "source_issue" ∷ "change" ∷ "task_worktree" ∷ "integration_root" ∷ "provider" ∷ "profile"
    ∷ "executor_model" ∷ "rationale" ∷ "prepared_at" ∷ "pre_snapshot" ∷ []

-- The keys whose values `tuple` goes through, an empty list where they are missing.
abbrev pub sequence_keys : List String
sequence_keys =
    "evidence" ∷ "escalations" ∷ "context_delegations" ∷ "observations" ∷ "compactions" ∷ []

unfoldable pub is_iterable : Option Json → Bool
is_iterable none = true
is_iterable (some (str s)) = true
is_iterable (some (arr js)) = true
is_iterable (some (obj fs)) = true
is_iterable _ = false

unfoldable pub has_all_keys : Fields → Bool
unfolding has_key is_iterable lookup
has_all_keys payload =
    all (λ key. has_key key payload) required_keys
    && all (λ key. is_iterable (lookup key payload)) sequence_keys

unfoldable pub value_at : String → Fields → Json
unfolding get_or lookup
value_at key payload = get_or null (lookup key payload)

unfoldable pub built : Fields → Option Fields → Route
unfolding value_at get_or lookup as_fields
built payload plan = record {
  source_issue = value_at "source_issue" payload;
  change = value_at "change" payload;
  provider = value_at "provider" payload;
  profile = value_at "profile" payload;
  topology = get_or (str linked_worktree) (lookup "topology" payload);
  execution = as_fields (lookup "execution" payload);
  execution_plan = plan;
}

-- The comparison with the task's identity; only a text has `lower`.
unfoldable pub same_identity :
    (String → String) → String → String → Json → Json → Result Refusal Bool
unfolding is_text
same_identity lower source_issue change (str recorded) named =
    ok (lower recorded == lower source_issue && is_text change (some named))
same_identity lower source_issue change j named = err uncaught

unfoldable pub route_from_payload :
    (String → String) → String → String → Json → Result Refusal Route
unfolding require has_all_keys validate_execution_plan same_identity built lookup
route_from_payload lower source_issue change (obj payload) =
    require (has_all_keys payload) incomplete_record
    >> (validate_execution_plan (lookup "execution_plan" payload) >>= λ plan.
        let route = built payload plan in
        same_identity lower source_issue change route.source_issue route.change >>= λ same.
        require same foreign_identity >> ok route)
route_from_payload lower source_issue change j = err uncaught
