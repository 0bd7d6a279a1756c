-- ===== src/Examples/Publishing.antt =====
-- The answers of GitHub on one pull request.
use dev_platform.Base.{true, String, ◌≡◌, refl, none, some, List, [], ◌∷◌, ◌⊎◌}
use dev_platform.Base.Json.{Json, int, pos, str, arr, obj, end, item, Fields, close, field}
use dev_platform.Publication.Required.{
  Answer, value, ChecksAnswer, listed, required_check_state_for_ref,
}
use dev_platform.Publication.Required.Passed.{
  AtHead, Targets, Lists, AllPassed, required_check_state-passed,
}
use dev_platform.Publication.ExactHead.{Found, find_exact_head_pr}
use dev_platform.Publication.Observation.{GitReads, CheckReads}
use dev_platform.Publication.ExactHead.Identity.{optional, exact_with, find_exact_head_pr-exact}

abbrev as_is : String → String
as_is s = s

abbrev text_or_none : Json → String
text_or_none (str s) = s
text_or_none _ = "None"

abbrev head_answer : Answer
head_answer = value (obj (field "state" (str "OPEN") (field "headRefOid" (str "abc") close)))

abbrev base_answer : Answer
base_answer = value (obj (field "baseRefName" (str "main") close))

abbrev one_row : List Fields
one_row = field "name" (str "ci") (field "state" (str "SUCCESS") close) ∷ []

abbrev one_listed : ChecksAnswer
one_listed =
    listed
      (value (arr (item (obj (field "name" (str "ci") (field "state" (str "SUCCESS") close))) end)))

required_check_state-passed_example :
    AtHead as_is text_or_none "abc" head_answer
    × Targets as_is text_or_none "main" base_answer
    × Lists as_is text_or_none one_listed one_row
    × AllPassed as_is text_or_none one_row
    × AtHead as_is text_or_none "abc" head_answer
unfolding required_check_state_for_ref
required_check_state-passed_example =
    required_check_state-passed as_is text_or_none "main" "abc" head_answer base_answer one_listed
      base_answer head_answer one_row refl

abbrev pr_at : String → String → Fields
pr_at state head = field "number" (int (pos 5)) (
    field "baseRefName" (str "main") (
      field "headRefName" (str "task/x")
        (field "state" (str state) (field "headRefOid" (str head) close))))

abbrev two_candidates : List Fields
two_candidates = pr_at "OPEN" "old" ∷ pr_at "OPEN" "abc" ∷ []

abbrev two_found : Found
two_found = record {
  exact_open = some (pr_at "OPEN" "abc");
  exact_merged = none;
  stale_open = some (pr_at "OPEN" "old");
  exact_closed = none;
}

find_exact_head_pr-exact_example :
    (optional two_found.exact_open
      ≡ exact_with as_is text_or_none "task/x" "main" "abc" "OPEN" two_candidates)
    × (optional two_found.exact_merged
        ≡ exact_with as_is text_or_none "task/x" "main" "abc" "MERGED" two_candidates)
    × (optional two_found.exact_closed
        ≡ exact_with as_is text_or_none "task/x" "main" "abc" "CLOSED" two_candidates)
    × ((two_found.exact_open ≡ none) ⊎ (two_found.exact_merged ≡ none))
unfolding find_exact_head_pr
find_exact_head_pr-exact_example =
    find_exact_head_pr-exact as_is text_or_none "task/x" "main" "abc" two_candidates two_found refl

abbrev git_reads : GitReads
git_reads = record {
  local_head = some "abc";
  authenticated = true;
  remote_branch_head = some "abc";
  local_main_head = some "m1";
  remote_main_head = some "m1";
}

abbrev check_reads : CheckReads
check_reads = record {
  main = some "main";
  before = head_answer;
  base = base_answer;
  checks = one_listed;
  protection = base_answer;
  after = head_answer;
}
