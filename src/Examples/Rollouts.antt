-- ===== src/Examples/Rollouts.antt =====
-- Two rollouts of one repository, and a streak of failures whose blocks are read by their first release.
use mathlib.Core.Option
use dev_platform.Base.{
  ℕ, String, Bool, true, false, ◌≡◌, refl, ◌==◌, ◌&&◌, ◌-◌, Option, none, some, List, [], ◌∷◌, All,
  map, keep, ◌⊎◌, leb, if◌then◌else◌,
}
use dev_platform.Base.Json.{ℤ, pos, Json, int, str, obj, Fields, close, field}
use dev_platform.Rollout.Version.{Version, parse_version}
use dev_platform.Rollout.Identity.{
  has_text, RolloutPr, eligible_rollout_prs, authoritative_pending_rollout,
}
use dev_platform.Rollout.Identity.Order.{Ascending}
use dev_platform.Rollout.Identity.Boundary.{From, eligible_rollout_prs_trusted}
use dev_platform.Rollout.Supersession.{
  plan_supersession, reconcile_plan, Reason, confirm, parse_given, truthy,
}
use dev_platform.Rollout.Supersession.Plan.{stale, reconcile_plan_newest, plan_supersession_closes}
use dev_platform.Rollout.Streak.{
  Failure, Issue, state_fields, sorted_fields, render_body, record_failure, parse_state, reconcile,
}
use dev_platform.Rollout.Streak.Count.{
  Tracks, after_failures, record_failure_counts, record_failure_unreadable,
}
use dev_platform.Rollout.Streak.Closing.{Proves, reconcile_closes}

abbrev ascii_digit : ℕ → Option ℕ
ascii_digit c = if leb 48 c && leb c 57 then some (c - 48) else none

abbrev github_pr : ℕ → String → Fields
github_pr n branch = field "number" (int (pos n)) (
    field "html_url" (str "url") (
      field "head"
        (obj (
          field "ref" (str branch)
            (field "repo" (obj (field "full_name" (str "o/r") close)) close)))
        (field "base" (obj (field "ref" (str "main") close))
          (field "user" (obj (field "login" (str "bot") close)) close))))

abbrev open_prs : List Fields
open_prs =
    github_pr 8 "dev-platform/rollout-v1.10.0"
    ∷ github_pr 9 "dev-platform/rollout-v1.2.0"
    ∷ github_pr 10 "feature"
    ∷ []

abbrev newest : RolloutPr
newest = record {
  number = pos 8;
  url = "url";
  branch = "dev-platform/rollout-v1.10.0";
  version = "v1.10.0";
  head_sha = "";
}

newest_lem : authoritative_pending_rollout ascii_digit "o/r" "main" "bot" open_prs ≡ some newest
unfolding authoritative_pending_rollout Option.bind
newest_lem = refl

abbrev eligible : List RolloutPr
eligible = eligible_rollout_prs ascii_digit "o/r" "main" "bot" open_prs

eligible_rollout_prs_trusted_example :
    All (From ascii_digit "o/r" "main" "bot" open_prs) eligible × Ascending ascii_digit eligible
eligible_rollout_prs_trusted_example =
    eligible_rollout_prs_trusted ascii_digit "o/r" "main" "bot" open_prs

reconcile_plan_newest_example :
    (w : Version) × (planned : List (RolloutPr × Reason)) × (parse_version ascii_digit "v1.10.0"
      ≡ some w)
    × (reconcile_plan ascii_digit eligible none none none ≡ some planned)
    × (map (λ c. c.0) planned ≡ keep (stale ascii_digit none (some ("v1.10.0", w))) eligible)
    × (stale ascii_digit none (some ("v1.10.0", w)) newest ≡ false)
    × All
        (λ p.
          (stale ascii_digit none (some ("v1.10.0", w)) p ≡ true)
          ⊎ (parse_version ascii_digit p.version ≡ some w))
        eligible
reconcile_plan_newest_example =
    reconcile_plan_newest ascii_digit "o/r" "main" "bot" open_prs newest none newest_lem

plan_supersession_closes_example :
    (planned : List (RolloutPr × Reason)) × (plan_supersession ascii_digit eligible
        (some "v1.2.0")
        (some "v1.10.0")
        (some (pos 8))
      ≡ some planned)
    × (map (λ c. c.0) planned
        ≡ keep
            (stale ascii_digit (some ("v1.2.0", (1, 2, 0))) (some ("v1.10.0", (1, 10, 0))))
            eligible)
unfolding parse_given truthy confirm eligible_rollout_prs Option.bind
plan_supersession_closes_example =
    plan_supersession_closes ascii_digit "o/r" "main" "bot" open_prs (some "v1.2.0")
      (some "v1.10.0") (some (pos 8)) (some ("v1.2.0", (1, 2, 0))) (some ("v1.10.0", (1, 10, 0)))
      refl refl refl

abbrev plain_text : Json → String
plain_text (str s) = s
plain_text _ = ""

abbrev first_failure : Failure
first_failure = record {
  version = "v1.2.0";
  category = "copier";
  reason = "conflict";
  last_updated = "d1";
}

abbrev second_failure : Failure
second_failure = record {
  version = "v1.3.0";
  category = "tests";
  reason = "red";
  last_updated = "d2";
}

abbrev first_state : Fields
first_state = sorted_fields (state_fields "o/r" (pos 1) "v1.2.0" first_failure)

abbrev second_state : Fields
second_state = sorted_fields (state_fields "o/r" (pos 2) "v1.2.0" second_failure)

abbrev short_dump : Fields → String
short_dump s = if has_text "last_failed_release" "v1.2.0" s then "one" else "two"

abbrev short_load : String → Option Json
short_load s =
    if s == "one"
    then some (obj first_state)
    else if s == "two"
    then some (obj second_state)
    else none

abbrev no_float : String → ℤ → Bool
no_float s z = false

abbrev first_issue : Issue
first_issue = record { body = render_body plain_text short_dump first_state; labelled = true }

record_failure_counts_example :
    Tracks short_load no_float plain_text short_dump "o/r" 2 2 "v1.2.0" second_failure (
      after_failures short_load no_float plain_text short_dump "o/r" 2
        (record_failure short_load no_float plain_text short_dump "o/r" (pos 2) none first_failure)
        (second_failure ∷ []))
unfolding render_body state_fields sorted_fields has_text
record_failure_counts_example =
    record_failure_counts short_load no_float plain_text short_dump "o/r" 2 first_failure
      (second_failure ∷ []) ((refl, refl, refl), ((refl, refl, refl), tt)) refl refl

record_failure_unreadable_example :
    (record_failure short_load no_float plain_text short_dump "o/r"
      (pos 3)
      (some (record { body = "edited by hand"; labelled = false }))
      second_failure).labelled
    ≡ true
unfolding parse_state render_body state_fields sorted_fields has_text Option.bind
record_failure_unreadable_example =
    record_failure_unreadable short_load no_float plain_text short_dump "o/r" 3
      (record { body = "edited by hand"; labelled = false }) second_failure refl

reconcile_closes_example :
    Proves short_load no_float plain_text ascii_digit
      (parse_state short_load no_float plain_text first_issue.body)
      "o/r"
      (some "v1.10.0")
unfolding reconcile render_body state_fields sorted_fields has_text Option.bind
reconcile_closes_example =
    reconcile_closes short_load no_float plain_text ascii_digit "o/r" (some "v1.10.0") first_issue
      refl
