-- ===== src/Routing.antt =====
-- `template/scripts/model_routing.py`: the routing record of a managed task, and the gates that read it. A record and
-- its parts are JSON values.
pub mod Plan
pub mod Record
pub mod Evidence
pub mod Gate
pub mod Early
use dev_platform.Base.{
  String, Bool, true, false, not, ◌&&◌, Option, none, some, ◌==◌, List, [], ◌∷◌, contains,
  if◌then◌else◌,
}
use dev_platform.Base.Json.{Json, null, bool, str, arr, obj, Fields, Items, lookup, as_fields}
use dev_platform.Base.Result.{Result, err, ok}
use dev_platform.Base.Text.{is_nil, is_blank}

-- `RoutingError`, by what it names; `uncaught` is any other exception.
pub data Refusal : Type 0 where
  invalid_plan : String → Refusal
  incomplete_record : Refusal
  foreign_identity : Refusal
  no_plan : String → Refusal
  unsupported_route : Refusal
  complex_without_outcome : Refusal
  no_outcome : Refusal
  retained_metadata : Refusal
  retention_reason : Refusal
  other_owner_approval : Refusal
  no_clean_postcheck : Refusal
  codex_not_launched : Refusal
  codex_not_clean : Refusal
  unverified_claude : Refusal
  content_before_route : List String → Refusal
  reroute_required : Refusal
  written_by_supervisor : List String → Refusal
  no_record : Refusal
  write_refused : Refusal
  uncaught : Refusal

abbrev pub plan_delegated : String
plan_delegated = "delegated-child"

abbrev pub plan_retained : String
plan_retained = "supervisor-retained"

abbrev pub owner_approved_policy : String
owner_approved_policy = "owner-approved"

abbrev pub balanced_parent_policy : String
balanced_parent_policy = "balanced-parent"

abbrev pub standalone_clone : String
standalone_clone = "standalone-clone"

abbrev pub linked_worktree : String
linked_worktree = "linked-worktree"

abbrev pub self_reported : String
self_reported = "self-reported"

abbrev pub platform_observed : String
platform_observed = "platform-observed"

abbrev pub verified_external_advance : String
verified_external_advance = "verified_external_advance"

-- A statement that raises where its condition does not hold.
unfoldable pub require : Bool → Refusal → Result Refusal Unit
require true refusal = ok tt
require false refusal = err refusal

-- `value == text`
unfoldable pub is_text : String → Option Json → Bool
is_text text (some (str s)) = s == text
is_text text _ = false

-- `value in (..)`, for texts
unfoldable pub one_of : List String → Option Json → Bool
one_of texts (some (str s)) = contains texts s
one_of texts _ = false

-- `isinstance(value, str) and value`
unfoldable pub is_nonempty : Option Json → Bool
unfolding is_nil
is_nonempty (some (str s)) = not (is_nil s)
is_nonempty _ = false

-- `isinstance(value, str) and value.strip()`
unfoldable pub is_nonblank : Option Json → Bool
unfolding is_blank
is_nonblank (some (str s)) = not (is_blank s)
is_nonblank _ = false

-- `isinstance(value, dict)`
unfoldable pub is_dict : Option Json → Bool
is_dict (some (obj fs)) = true
is_dict _ = false

-- `value is b`
unfoldable pub is_exactly : Bool → Option Json → Bool
is_exactly true (some (bool b)) = b
is_exactly false (some (bool b)) = not b
is_exactly b _ = false

-- `value is None`, for what `get` returns
unfoldable pub is_none : Option Json → Bool
is_none none = true
is_none (some null) = true
is_none _ = false

-- `key in d`
unfoldable pub has_key : String → Fields → Bool
unfolding lookup
has_key key fs = elim (lookup key fs) [ none ↦ false | some j ↦ true ]

-- The fields of the record that the gates read. Its other fields are only required to be there.
pub record Route : Type 0 where
  pub source_issue : Json
  pub change : Json
  pub provider : Json
  pub profile : Json
  pub topology : Json
  pub execution : Option Fields
  pub execution_plan : Option Fields
