-- ===== src/Rollout/Streak.antt =====
-- `parse_state`, `next_state_on_failure` and `observe_recovery` of `scripts/rollout_failure_streak.py`. Parameters
-- stand for Python's own: `loads` is `json.loads`, `float_eq`
-- compares a float with a number, `text_of` is `str`, and `digit` is the decimal value of a code point.
pub mod Rendered
pub mod Count
pub mod Closing
use mathlib.Core.Option
use dev_platform.Base.{
  ℕ, String, Bool, true, false, not, ◌&&◌, ◌||◌, ◌=?◌, Option, none, some, ◌==◌, ◌<>◌, suc, zero,
}
use dev_platform.Base.{List, [], ◌∷◌, ◌++◌, if◌then◌else◌}
use dev_platform.Base.Json.{
  ℤ, pos, negsuc, Json, null, bool, int, float, str, arr, obj, end, item, Fields, close, field,
}
use dev_platform.Base.Json.{lookup, as_text}
use dev_platform.Base.Sorting.{string_ltb}
use dev_platform.Rollout.Block.{find_block}
use dev_platform.Rollout.Version.{Version, version_ltb, parse_version}
use dev_platform.Rollout.Identity.{as_int, int_ltb, has_text}
use dev_platform.Rollout.Supersession.{int_eqb}

abbrev pub schema_version : ℕ
schema_version = 1

unfoldable pub int_suc : ℤ → ℤ
int_suc (pos n) = pos (suc n)
int_suc (negsuc zero) = pos 0
int_suc (negsuc (suc n)) = negsuc n

-- what the attempt that failed gives
pub record Failure : Type 0 where
  pub version : String
  pub category : String
  pub reason : String
  pub last_updated : String

-- The open tracking issue of a repository: its body, and whether it has the alert label.
pub record Issue : Type 0 where
  pub body : String
  pub labelled : Bool

-- The answer of `observe_recovery`. Only `recovered` is true; it and `older` name the current and the failed version.
pub data Recovery : Type 0 where
  foreign : Recovery
  no_release : Recovery
  invalid_release : Recovery
  unproved : Recovery
  older : String → String → Recovery
  recovered : String → String → Recovery

comparison : Bool → String → String → Recovery
comparison is_older current failed =
    if is_older then older current failed else recovered current failed

unfoldable pub body_of : Option Issue → Option String
body_of none = none
body_of (some issue) = some issue.body

unfoldable pub is_labelled : Option Issue → Bool
is_labelled none = false
is_labelled (some issue) = issue.labelled

-- `"\n".join(lines) + "\n"`
unfoldable pub join_lines : List String → String
join_lines [] = ""
join_lines (l ∷ ls) = l <> ("\n" <> join_lines ls)

-- `cmd_record_success` closes the issue.
unfoldable pub record_success : Option Issue → Option Issue
record_success issue = none

unfoldable pub state_fields : String → ℤ → String → Failure → Fields
state_fields repository consecutive first f = field "schema_version" (int (pos schema_version)) (
    field "repository" (str repository) (
      field "consecutive_failures" (int consecutive) (
        field "first_failed_release" (str first) (
          field "last_failed_release" (str f.version) (
            field "last_category" (str f.category) (
              field "last_reason" (str f.reason)
                (field "last_updated" (str f.last_updated) close)))))))

unfoldable pub insert_field : String → Json → Fields → Fields
unfolding string_ltb
insert_field k v close = field k v close
insert_field k v (field j w fs) =
    let rest = insert_field k v fs in
    if string_ltb k j then field k v (field j w fs) else field j w rest

-- `sort_keys=True`, for a dict whose values are not dicts
unfoldable pub sorted_fields : Fields → Fields
unfolding insert_field
sorted_fields close = close
sorted_fields (field k v fs) = insert_field k v (sorted_fields fs)

module _ (text_of : Json → String) where
  -- `{state[key]}` in a text
  shown : String → Fields → String
  unfolding lookup
  shown key state = elim (lookup key state) [ none ↦ "" | some j ↦ text_of j ]

  -- The lines before the block.
  unfoldable pub summary_lines : Fields → List String
  unfolding shown
  summary_lines state =
      ("Managed rollout has failed **"
        <> shown "consecutive_failures" state
        <> "** consecutive attempt(s) against `"
        <> shown "repository" state
        <> "`.")
      ∷ ""
      ∷ "| Field | Value |"
      ∷ "| --- | --- |"
      ∷ ("| Consecutive failures | " <> shown "consecutive_failures" state <> " |")
      ∷ ("| First failed release | " <> shown "first_failed_release" state <> " |")
      ∷ ("| Last failed release | " <> shown "last_failed_release" state <> " |")
      ∷ ("| Last category | " <> shown "last_category" state <> " |")
      ∷ ("| Last reason | " <> shown "last_reason" state <> " |")
      ∷ ""
      ∷ "This issue is maintained automatically by `scripts/rollout_failure_streak.py`. It closes itself the next time this project's managed rollout preparation succeeds."
      ∷ ""
      ∷ []

  -- `dumps` is `json.dumps`, which writes the keys in the order of the dict.
  unfoldable pub render_body : (Fields → String) → Fields → String
  unfolding summary_lines join_lines sorted_fields
  render_body dumps state = join_lines (
      summary_lines state
      ++ ("<!-- rollout-failure-streak-state" ∷ dumps (sorted_fields state) ∷ "-->" ∷ []))

module _ (loads : String → Option Json) (float_eq : String → ℤ → Bool)
    (text_of : Json → String) where
  -- `value == n`
  equals_int : Option Json → ℤ → Bool
  unfolding int_eqb
  equals_int (some (int z)) n = int_eqb z n
  equals_int (some (bool true)) n = int_eqb (pos 1) n
  equals_int (some (bool false)) n = int_eqb (pos 0) n
  equals_int (some (float s)) n = float_eq s n
  equals_int _ n = false

  -- the truth of a value
  truth : Json → Bool
  unfolding int_eqb
  truth null = false
  truth (bool b) = b
  truth (int z) = not (int_eqb z (pos 0))
  truth (float s) = not (float_eq s (pos 0))
  truth (str s) = not (s == "")
  truth (arr end) = false
  truth (arr (item j js)) = true
  truth (obj close) = false
  truth (obj (field k v fs)) = true

  has_shape : Option String → Option ℤ → Bool
  has_shape (some r) (some n) = true
  has_shape _ _ = false

  unfoldable pub validate : Option Json → Option Fields
  unfolding equals_int has_shape lookup as_text as_int
  validate (some (obj fs)) =
      if equals_int (lookup "schema_version" fs) (pos schema_version)
        && has_shape (as_text (lookup "repository" fs)) (as_int (lookup "consecutive_failures" fs))
      then some fs
      else none
  validate _ = none

  unfoldable pub parse_state : String → Option Fields
  unfolding validate find_block
  parse_state body = validate (Option.bind (find_block body) loads)

  -- `int(prior["consecutive_failures"])`, of a state that `parse_state` returned
  count_of : Option ℤ → ℤ
  count_of (some n) = n
  count_of none = pos 0

  -- `str(prior.get("first_failed_release") or version)`
  first_of : Option Json → String → String
  unfolding truth
  first_of none version = version
  first_of (some j) version = if truth j then text_of j else version

  -- `max(threshold, 1)`
  unfoldable pub at_least_one : ℤ → ℤ
  unfolding int_ltb
  at_least_one threshold = if int_ltb threshold (pos 1) then pos 1 else threshold

  -- The prior state belongs to the repository, it is unreadable, or there is none.
  next_of : Option String → Option Fields → String → ℤ → Failure → Fields × ℤ × Bool
  unfolding state_fields int_suc count_of first_of has_text lookup as_int at_least_one
  next_of none _ repository threshold f =
      (state_fields repository (pos 1) f.version f, pos 1, false)
  next_of (some body) none repository threshold f =
      (state_fields repository (at_least_one threshold) f.version f, at_least_one threshold, true)
  next_of (some body) (some prior) repository threshold f =
      let n = int_suc (count_of (as_int (lookup "consecutive_failures" prior))) in
      if has_text "repository" repository prior
      then (
        state_fields repository n (first_of (lookup "first_failed_release" prior) f.version) f,
        n,
        false,
      )
      else (state_fields repository (pos 1) f.version f, pos 1, false)

  read_prior : Option String → Option Fields
  unfolding parse_state
  read_prior none = none
  read_prior (some body) = parse_state body

  judged : ℤ → Fields × ℤ × Bool → Fields × Bool × Bool
  unfolding int_ltb
  judged threshold (state, consecutive, unreadable) =
      (state, not (int_ltb consecutive threshold), unreadable)

  -- The new state, whether to alert, and whether the prior state was unreadable.
  unfoldable pub next_state_on_failure : Option String → String → ℤ → Failure → Fields × Bool × Bool
  unfolding next_of read_prior judged
  next_state_on_failure body repository threshold f =
      judged threshold (next_of body (read_prior body) repository threshold f)

  updated : (Fields → String) → Option Issue → Fields × Bool × Bool → Issue
  unfolding render_body is_labelled
  updated dumps issue (state, alert, unreadable) = record {
    body = render_body text_of dumps state;
    labelled = is_labelled issue || alert;
  }

  -- What `cmd_record_failure` leaves on the tracker: the issue is created or edited, and labelled on an alert.
  unfoldable pub record_failure : (Fields → String) → String → ℤ → Option Issue → Failure → Issue
  unfolding updated next_state_on_failure body_of
  record_failure dumps repository threshold issue f =
      updated dumps issue (next_state_on_failure (body_of issue) repository threshold f)

  module _ (digit : ℕ → Option ℕ) where
    -- `none` stands for the `ValueError` that the last comparison would raise.
    unfoldable pub compare_versions : String → Version → String → Option Version → Option Recovery
    unfolding version_ltb comparison
    compare_versions failed w current none = none
    compare_versions failed w current (some v) = some (comparison (version_ltb v w) current failed)

    at_current : String → Version → Option String → Option Recovery
    unfolding compare_versions parse_version
    at_current failed w none = some unproved
    at_current failed w (some current) =
        compare_versions failed w current (parse_version digit current)

    at_failed_version : String → Option Version → Option String → Option Recovery
    unfolding at_current
    at_failed_version failed none current = some invalid_release
    at_failed_version failed (some w) current = at_current failed w current

    at_failed : Option String → Option String → Option Recovery
    unfolding at_failed_version parse_version
    at_failed none current = some no_release
    at_failed (some failed) current = at_failed_version failed (parse_version digit failed) current

    at_prior : Option Fields → String → Option String → Option Recovery
    unfolding at_failed has_text lookup as_text
    at_prior none repository current = some foreign
    at_prior (some prior) repository current =
        if has_text "repository" repository prior
        then at_failed (as_text (lookup "last_failed_release" prior)) current
        else some foreign

    -- `current` is what `project_platform_version` returns, `none` where it raises.
    unfoldable pub observe_recovery : String → String → Option String → Option Recovery
    unfolding at_prior parse_state
    observe_recovery body repository current = at_prior (parse_state body) repository current

    after_recovery : Option Recovery → Option Issue → Option Issue
    after_recovery (some (recovered v w)) issue = none
    after_recovery _ issue = issue

    -- What `cmd_reconcile` leaves on the tracker.
    unfoldable pub reconcile : String → Option String → Option Issue → Option Issue
    unfolding observe_recovery after_recovery
    reconcile repository current none = none
    reconcile repository current (some issue) =
        after_recovery (observe_recovery issue.body repository current) (some issue)
