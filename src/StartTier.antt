-- ===== src/StartTier.antt =====
-- `template/scripts/start_tier_routing.py`: the start tier that is recorded for a task before it runs.
pub mod Receipts
use dev_platform.Base.{
  String, ◌<>◌, Bool, true, false, not, ◌&&◌, ◌||◌, ◌==◌, Option, none, some, List, [], ◌∷◌,
}
use dev_platform.Base.{all, contains, if◌then◌else◌}
use dev_platform.Base.Result.{Result, ok, err, ◌>>=◌, ◌>>◌}
use dev_platform.Base.Text.{strip, is_blank}
use dev_platform.Base.Json.{Json, Fields, null, str, obj, close, field, lookup, keys, as_text}

abbrev pub rubric_version : String
rubric_version = "v1"

abbrev pub tiers : List String
tiers = "R1" ∷ "R2" ∷ "R3" ∷ []

abbrev pub default_tier : String
default_tier = "R2"

abbrev pub production_disabled_tiers : List String
production_disabled_tiers = "R1" ∷ []

abbrev pub strong_triggers : List String
strong_triggers =
    "unresolved_architecture" ∷ "unknown_diagnosis" ∷ "weak_verification_high_consequence"
    ∷ "novel_cross_system" ∷ "trustworthy_escalation_history" ∷ "prior_balanced_failure" ∷ []

abbrev pub routing_confidence_values : List String
routing_confidence_values = "low" ∷ "medium" ∷ "high" ∷ []

abbrev pub assurance_values : List String
assurance_values = "standard" ∷ "high" ∷ []

abbrev pub effort_hint_values : List String
effort_hint_values = "low" ∷ "medium" ∷ "high" ∷ []

abbrev pub routing_receipt_keys : List String
routing_receipt_keys =
    "recommended_start_tier" ∷ "rubric_version" ∷ "task_family" ∷ "routing_confidence" ∷ "assurance"
    ∷ "effort_hint" ∷ "strong_trigger" ∷ []

-- The messages of `StartTierError`.
pub data StartTierError : Type 0 where
  empty_task_family bad_routing_confidence bad_assurance bad_effort_hint invalid_shape :
      StartTierError
  unsupported_trigger unsupported_tier disabled_tier missing_trigger stray_trigger : StartTierError
  empty_field : String → StartTierError
  unknown_tier : StartTierError

abbrev guard : Bool → StartTierError → Result StartTierError (Unit {0})
guard true e = ok tt
guard false e = err e

unfoldable pub trigger_and_tier : Option String → Result StartTierError (Option String × String)
unfolding strip
trigger_and_tier none = ok (none, default_tier)
trigger_and_tier (some strong_trigger) =
    let trigger = strip strong_trigger in
    if contains strong_triggers trigger then ok (some trigger, "R3") else err unsupported_trigger

unfoldable pub resolve_effort : String → Option String → Result StartTierError String
resolve_effort tier none = ok (if tier == "R3" then "high" else "medium")
resolve_effort tier (some hint) =
    if contains effort_hint_values hint then ok hint else err bad_effort_hint

unfoldable pub text_or_null : Option String → Json
text_or_null none = null
text_or_null (some s) = str s

unfoldable pub receipt : String → String → String → String → String → Option String → Fields
unfolding text_or_null
receipt tier task_family routing_confidence assurance effort_hint trigger =
    field "recommended_start_tier" (str tier) (
      field "rubric_version" (str rubric_version) (
        field "task_family" (str task_family) (
          field "routing_confidence" (str routing_confidence) (
            field "assurance" (str assurance) (
              field "effort_hint" (str effort_hint)
                (field "strong_trigger" (text_or_null trigger) close))))))

unfoldable pub recommend_start_tier :
    Option String → String → String → String → Option String → Result StartTierError Fields
unfolding trigger_and_tier resolve_effort receipt is_blank strip
recommend_start_tier strong_trigger task_family routing_confidence assurance effort_hint = do
  guard (not (is_blank task_family)) empty_task_family
  guard (contains routing_confidence_values routing_confidence) bad_routing_confidence
  guard (contains assurance_values assurance) bad_assurance
  chosen ← trigger_and_tier strong_trigger
  effort ← resolve_effort chosen.1 effort_hint
  ok (receipt chosen.1 (strip task_family) routing_confidence assurance effort chosen.0)

-- `value in texts`, for a value that need not be a text
unfoldable pub is_one_of : Option String → List String → Bool
is_one_of none texts = false
is_one_of (some s) texts = contains texts s

is_null : Option Json → Bool
is_null none = true
is_null (some null) = true
is_null (some _) = false

unfoldable pub check_trigger : Option String → Fields → Result StartTierError (Unit {0})
unfolding is_one_of as_text lookup is_null
check_trigger tier fs =
    if is_one_of tier ("R3" ∷ [])
    then guard (is_one_of (as_text (lookup "strong_trigger" fs)) strong_triggers) missing_trigger
    else guard (is_null (lookup "strong_trigger" fs)) stray_trigger

is_filled : Option String → Bool
unfolding is_blank
is_filled none = false
is_filled (some s) = not (is_blank s)

-- The loop over the keys that must hold a text.
unfoldable pub check_texts : List String → Fields → Result StartTierError (Unit {0})
unfolding is_filled as_text lookup
check_texts [] fs = ok tt
check_texts (k ∷ ks) fs = do
  guard (is_filled (as_text (lookup k fs))) (empty_field k)
  check_texts ks fs

unfoldable pub validate_fields : Fields → Result StartTierError Fields
unfolding check_trigger check_texts keys is_one_of as_text lookup
validate_fields fs = do
  guard
      (all (contains routing_receipt_keys) (keys fs)
        && all (contains (keys fs)) routing_receipt_keys)
      invalid_shape
  let tier = as_text (lookup "recommended_start_tier" fs)
  guard (is_one_of tier tiers) unsupported_tier
  guard (not (is_one_of tier production_disabled_tiers)) disabled_tier
  check_trigger tier fs
  check_texts
      ("task_family" ∷ "routing_confidence" ∷ "assurance" ∷ "effort_hint" ∷ "rubric_version" ∷ [])
      fs
  guard (is_one_of (as_text (lookup "routing_confidence" fs)) routing_confidence_values)
      bad_routing_confidence
  guard (is_one_of (as_text (lookup "assurance" fs)) assurance_values) bad_assurance
  guard (is_one_of (as_text (lookup "effort_hint" fs)) effort_hint_values) bad_effort_hint
  ok fs

unfoldable pub validate_routing_receipt : Json → Result StartTierError (Option Fields)
unfolding validate_fields
validate_routing_receipt null = ok none
validate_routing_receipt (obj fs) = do valid ← validate_fields fs; ok (some valid)
validate_routing_receipt _ = err invalid_shape

unfoldable pub tier_to_profile : String → Result StartTierError String
tier_to_profile tier = do
  guard (contains tiers tier) unknown_tier
  guard (not (contains production_disabled_tiers tier)) disabled_tier
  ok (if tier == "R1" then "routine" else if tier == "R2" then "standard" else "complex")

unfoldable pub title_prefix : String → Result StartTierError String
title_prefix tier = do guard (contains tiers tier) unknown_tier; ok ("[" <> tier <> "]")
