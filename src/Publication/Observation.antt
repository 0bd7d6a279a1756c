-- ===== src/Publication/Observation.antt =====
-- `observe_publication`: the bucket of a task's publication, from the answers of git and GitHub. The texts of the
-- details are left out.
pub mod Complete
use dev_platform.Base.{String, Bool, true, false, not, ◌&&◌, ◌==◌, Option, none, some}
use dev_platform.Base.{List, if◌then◌else◌}
use dev_platform.Base.Json.{Json, null, Fields, lookup}
use dev_platform.Publication.Required.{
  CheckState, failed, Answer, ChecksAnswer, required_check_state_for_ref,
}
use dev_platform.Publication.ExactHead.{
  Found, HeadLookup, available, not_available, find_exact_head_pr,
}

pub data Bucket : Type 0 where
  not_published open_checks_pending remote_armed blocked : Bucket
  remote_merged_local_pending complete github_unavailable : Bucket

pub data Relationship : Type 0 where
  no_pr exact_open exact_merged stale_open unavailable : Relationship

pub record Observation : Type 0 where
  pub local_head : Option String
  pub remote_branch_head : Option String
  pub github_available : Bool
  pub pr : Option Fields
  pub pr_relationship : Relationship
  pub required_check : Option CheckState
  pub auto_merge_armed : Bool
  pub remote_merged : Bool
  pub local_main_head : Option String
  pub remote_main_head : Option String
  pub local_reconciliation_pending : Bool
  pub bucket : Bucket

-- What git answers; `authenticated` is whether there is an environment for GitHub.
pub record GitReads : Type 0 where
  pub local_head : Option String
  pub authenticated : Bool
  pub remote_branch_head : Option String
  pub local_main_head : Option String
  pub remote_main_head : Option String

-- the answers on the required checks of an open pull request
pub record CheckReads : Type 0 where
  pub main : Option String
  pub before : Answer
  pub base : Answer
  pub checks : ChecksAnswer
  pub protection : Answer
  pub after : Answer

-- an observation with the heads and the defaults
abbrev pub plain : GitReads → Relationship → Bucket → Observation
plain git relationship bucket = record {
  local_head = git.local_head;
  remote_branch_head = git.remote_branch_head;
  github_available = true;
  pr = none;
  pr_relationship = relationship;
  required_check = none;
  auto_merge_armed = false;
  remote_merged = false;
  local_main_head = git.local_main_head;
  remote_main_head = git.remote_main_head;
  local_reconciliation_pending = false;
  bucket = bucket;
}

without_github : GitReads → Observation
without_github git = record (plain git unavailable github_unavailable) {
  remote_branch_head = none;
  github_available = false;
  local_main_head = none;
  remote_main_head = none;
}

without_branch : GitReads → Observation
without_branch git = record (plain git no_pr not_published) {
  local_main_head = none;
  remote_main_head = none;
}

-- Both heads are known, and they differ.
unfoldable pub differ : Option String → Option String → Bool
differ (some a) (some b) = not (a == b)
differ _ _ = false

merged_observation : GitReads → Fields → Bool → Observation
merged_observation git pr is_pending =
    record (plain git exact_merged (if is_pending then remote_merged_local_pending else complete)) {
      pr = some pr;
      remote_merged = true;
      local_reconciliation_pending = is_pending;
    }

-- `pr.get("autoMergeRequest") is not None`
is_armed : Option Json → Bool
is_armed none = false
is_armed (some null) = false
is_armed (some _) = true

open_bucket : CheckState → Bool → Bucket
open_bucket (failed names rows) armed = blocked
open_bucket _ true = remote_armed
open_bucket _ false = open_checks_pending

open_observation : GitReads → Fields → Bool → CheckState → Observation
unfolding open_bucket
open_observation git pr armed state = record (plain git exact_open (open_bucket state armed)) {
  pr = some pr;
  required_check = some state;
  auto_merge_armed = armed;
}

unopened_observation : GitReads → Option Fields → Observation
unopened_observation git none = plain git no_pr not_published
unopened_observation git (some pr) = record (plain git stale_open not_published) { pr = some pr }

module _ (upper : String → String) (text_of : Json → String) where
  checks_at : String → CheckReads → CheckState
  unfolding required_check_state_for_ref
  checks_at head c =
      required_check_state_for_ref upper text_of c.main head c.before c.base c.checks c.protection
        c.after

  after_merged : GitReads → String → CheckReads → Found → Option Fields → Observation
  unfolding open_observation checks_at is_armed lookup unopened_observation
  after_merged git head c found none = unopened_observation git found.stale_open
  after_merged git head c found (some pr) =
      open_observation git pr (is_armed (lookup "autoMergeRequest" pr)) (checks_at head c)

  after_found : GitReads → String → CheckReads → Found → Option Fields → Observation
  unfolding after_merged merged_observation differ
  after_found git head c found none = after_merged git head c found found.exact_open
  after_found git head c found (some pr) =
      merged_observation git pr (differ git.local_main_head git.remote_main_head)

  after_lookup : GitReads → String → CheckReads → HeadLookup → Observation
  unfolding after_found
  after_lookup git head c (not_available e) = plain git unavailable github_unavailable
  after_lookup git head c (available found) = after_found git head c found found.exact_merged

  at_local_head :
      String → String → GitReads → Option (List Fields) → CheckReads → Option String → Observation
  unfolding without_branch after_lookup find_exact_head_pr
  at_local_head branch base_branch git candidates c none = without_branch git
  at_local_head branch base_branch git candidates c (some head) =
      after_lookup git head c (find_exact_head_pr upper text_of branch base_branch head candidates)

  unfoldable pub observe_publication :
      String → String → GitReads → Option (List Fields) → CheckReads → Observation
  unfolding without_github at_local_head
  observe_publication branch base_branch git candidates c =
      if git.authenticated
      then at_local_head branch base_branch git candidates c git.local_head
      else without_github git
