-- ===== src/Publication/Required.antt =====
-- The required checks of a pull request: `_classify_required_checks`, `_protected_required_contexts`,
-- `_observe_required_checks` and `required_check_state_for_ref`. `upper` is Python's `str.upper` and `text_of` is
-- `str`. The answers of the GitHub command line are arguments.
pub mod Passed
use dev_platform.Base.{String, Bool, true, false, not, ◌&&◌, ◌||◌, ◌==◌, Option, none, some, map}
use dev_platform.Base.{List, [], ◌∷◌, ◌++◌, any, all, keep, contains, is_empty, if◌then◌else◌}
use dev_platform.Base.Result.{Result, ok, err, ◌>>=◌, ◌>>◌}
use dev_platform.Base.Sorting.{sorted_set}
use dev_platform.Base.Text.{strip}
use dev_platform.Base.Json.{
  ℤ, pos, negsuc, Json, null, bool, int, str, arr, obj, Fields, close, field,
}
use dev_platform.Base.Json.{lookup, to_list, as_text, as_fields}
use dev_platform.Rollout.Identity.{int_ltb, has_text}

pub data Cause : Type 0 where
  transport malformed head_mismatch unsupported_state : Cause

-- `RequiredCheckState`: `failed` names the checks that failed. The texts of the details are left out.
pub data CheckState : Type 0 where
  not_registered : CheckState
  failed : List String → List Fields → CheckState
  passed : List Fields → CheckState
  pending : List Fields → CheckState
  unknown : Cause → CheckState

-- An answer of the GitHub command line: it failed, it is no JSON, or it is a value.
pub data Answer : Type 0 where
  unavailable not_json : Answer
  value : Json → Answer

-- The answer of `gh pr checks --required`: rows, exit code 1 with nothing printed, or another failure.
pub data ChecksAnswer : Type 0 where
  listed : Answer → ChecksAnswer
  none_reported unreadable : ChecksAnswer

abbrev pub passed_states : List String
passed_states = "SUCCESS" ∷ "NEUTRAL" ∷ "SKIPPING" ∷ "SKIPPED" ∷ []

abbrev pub failed_states : List String
failed_states = "FAILURE" ∷ "CANCELLED" ∷ "TIMED_OUT" ∷ "ACTION_REQUIRED" ∷ "STALE" ∷ "ERROR" ∷ []

abbrev pub pending_states : List String
pending_states = "EXPECTED" ∷ "PENDING" ∷ "QUEUED" ∷ "IN_PROGRESS" ∷ "WAITING" ∷ "REQUESTED" ∷ []

-- The rows if each of them is a dict.
unfoldable pub dicts : List Json → Option (List Fields)
dicts [] = some []
dicts (obj fs ∷ js) = elim (dicts js) [ none ↦ none | some rest ↦ some (fs ∷ rest) ]
dicts (_ ∷ js) = none

unfoldable pub texts : List Json → Option (List String)
texts [] = some []
texts (str s ∷ js) = elim (texts js) [ none ↦ none | some rest ↦ some (s ∷ rest) ]
texts (_ ∷ js) = none

as_list : Option Json → Option (List Json)
unfolding to_list
as_list (some (arr items)) = some (to_list items)
as_list _ = none

required : Bool → Cause → Result Cause (Unit {0})
required true cause = ok tt
required false cause = err cause

present : {A : Type 0} → Option A → Result Cause A
present none = err malformed
present (some a) = ok a

-- `None if app == -1 else app`, for an `app_id` that is null or an integer from -1 on
app_binding : Option Json → Result Cause (Option ℤ)
unfolding int_ltb
app_binding (some null) = ok none
app_binding (some (int z)) =
    if int_ltb z (negsuc 0)
    then err malformed
    else if int_ltb z (pos 0)
    then ok none
    else ok (some z)
app_binding _ = err malformed

unfoldable pub bindings : List Fields → Result Cause (List (String × Option ℤ))
unfolding app_binding as_text lookup present
bindings [] = ok []
bindings (c ∷ cs) = do
  context ← present (as_text (lookup "context" c))
  app ← app_binding (lookup "app_id" c)
  rest ← bindings cs
  ok ((context, app) ∷ rest)

-- The set as a list: the contexts with an application first, then the others.
with_contexts : List (String × Option ℤ) → List String → List (String × Option ℤ)
with_contexts bound contexts =
    bound
    ++ map (λ name. (name, none))
        (keep (λ name. not (contains (map (λ b. b.0) bound) name)) contexts)

unfoldable pub required_of : Fields → Result Cause (List (String × Option ℤ))
unfolding as_list as_fields lookup dicts texts bindings with_contexts present
required_of branch = do
  protection ← present (as_fields (lookup "protection" branch))
  checks_required ← present (as_fields (lookup "required_status_checks" protection))
  context_list ← present (as_list (lookup "contexts" checks_required))
  check_list ← present (as_list (lookup "checks" checks_required))
  contexts ← present (texts context_list)
  checks ← present (dicts check_list)
  bound ← bindings checks
  ok (with_contexts bound contexts)

unfoldable pub protected_of : Option Json → Fields → Result Cause (List (String × Option ℤ))
unfolding required_of
protected_of (some (bool false)) branch = ok []
protected_of (some (bool true)) branch = required_of branch
protected_of _ branch = err malformed

-- `_pr_view`, and the reading of the branch
unfoldable pub fields_of : Answer → Result Cause Fields
fields_of unavailable = err transport
fields_of (value (obj fs)) = ok fs
fields_of _ = err malformed

unfoldable pub protected_required_contexts :
    String → Answer → Result Cause (List (String × Option ℤ))
unfolding fields_of required has_text protected_of lookup
protected_required_contexts branch answer = do
  fs ← fields_of answer
  required (has_text "name" branch fs) malformed
  protected_of (lookup "protected" fs) fs

expected_row : String → Fields
expected_row name = field "name" (str name) (field "state" (str "EXPECTED") close)

-- Nothing is reported on the head: the branch's protection tells whether something is awaited.
unfoldable pub unreported : List (String × Option ℤ) → CheckState
unfolding expected_row sorted_set
unreported [] = not_registered
unreported (c ∷ cs) = pending (map expected_row (sorted_set (map (λ b. b.0) (c ∷ cs))))

-- The steps of an observation, the head's two checks around the others.
in_order :
    Result Cause (Unit {0})
    → Result Cause Fields
    → (Fields → Result Cause String)
    → (String → Result Cause CheckState)
    → Result Cause (Unit {0})
    → Result Cause CheckState
in_order before base named observed after = do
  before
  fs ← base
  name ← named fs
  state ← observed name
  after
  ok state

module _ (upper : String → String) (text_of : Json → String) where
  -- `str(d.get(key, ""))`
  unfoldable pub text_at : String → Fields → String
  unfolding lookup
  text_at key fs = elim (lookup key fs) [ none ↦ "" | some j ↦ text_of j ]

  unfoldable pub state_at : Fields → String
  unfolding text_at strip
  state_at fs = upper (strip (text_at "state" fs))

  name_at : Option Json → String
  name_at none = "unnamed"
  name_at (some j) = text_of j

  unfoldable pub classify_rows : List Fields → CheckState
  unfolding state_at name_at lookup
  classify_rows [] = not_registered
  classify_rows (row ∷ rows) =
      let states = map state_at (row ∷ rows) in
      if any (contains failed_states) states
      then failed
          (map (λ r. name_at (lookup "name" r))
            (keep (λ r. contains failed_states (state_at r)) (row ∷ rows)))
          (row ∷ rows)
      else if all (contains passed_states) states
      then passed (row ∷ rows)
      else if all (λ s. contains passed_states s || contains pending_states s) states
      then pending (row ∷ rows)
      else unknown unsupported_state

  unfoldable pub classify_required_checks : Option (List Fields) → CheckState
  unfolding classify_rows
  classify_required_checks none = unknown malformed
  classify_required_checks (some rows) = classify_rows rows

  rows_state : Answer → Result Cause CheckState
  unfolding classify_required_checks dicts to_list
  rows_state (value (arr items)) = ok (classify_required_checks (dicts (to_list items)))
  rows_state _ = err malformed

  reported : String → Answer → ChecksAnswer → Result Cause CheckState
  unfolding rows_state protected_required_contexts unreported
  reported base protection (listed rows) = rows_state rows
  reported base protection none_reported = do
    contexts ← protected_required_contexts base protection
    ok (unreported contexts)
  reported base protection unreadable = err transport

  unfoldable pub observe_required_checks :
      String → String → ChecksAnswer → Answer → Result Cause CheckState
  unfolding reported
  observe_required_checks base main checks protection =
      if base == main then reported base protection checks else err unsupported_state

  unfoldable pub has_head : String → Fields → Bool
  unfolding text_at strip
  has_head expected fs = strip (text_at "headRefOid" fs) == expected

  unfoldable pub require_expected_head : String → Answer → Result Cause (Unit {0})
  unfolding fields_of has_head required
  require_expected_head expected answer = do
    fs ← fields_of answer
    required (has_head expected fs) head_mismatch

  base_name : Option String → Result Cause String
  base_name none = err malformed
  base_name (some s) = if s == "" then err malformed else ok s

  unfoldable pub observe :
      String → String → Answer → Answer → ChecksAnswer → Answer → Answer → Result Cause CheckState
  unfolding in_order require_expected_head observe_required_checks base_name as_text lookup
      fields_of
  observe main expected before base checks protection after =
      in_order (require_expected_head expected before) (fields_of base)
        (λ fs. base_name (as_text (lookup "baseRefName" fs)))
        (λ name. observe_required_checks name main checks protection)
        (require_expected_head expected after)

  or_unknown : Result Cause CheckState → CheckState
  or_unknown (ok state) = state
  or_unknown (err cause) = unknown cause

  -- The answers in the order in which they are asked for; `main` is the branch that the configuration names.
  unfoldable pub required_check_state_for_ref :
      Option String → String → Answer → Answer → ChecksAnswer → Answer → Answer → CheckState
  unfolding observe or_unknown
  required_check_state_for_ref none expected before base checks protection after =
      unknown unsupported_state
  required_check_state_for_ref (some main) expected before base checks protection after =
      if main == ""
      then unknown unsupported_state
      else or_unknown (observe main expected before base checks protection after)
