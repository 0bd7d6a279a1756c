-- ===== src/Publication/Observation/Complete.antt =====
-- When a publication counts as complete.
use dev_platform.Base.{String, ◌≡◌, Bool, true, false, Option, some, List}
use dev_platform.Base.Json.{Json, Fields}
use dev_platform.Publication.ExactHead.Identity.{optional, exact_with}
use dev_platform.Publication.Observation.{Bucket, complete, Observation, GitReads, differ}

abbrev is_complete : Bucket → Bool
is_complete complete = true
is_complete _ = false

module _ (upper : String → String) (text_of : Json → String) (branch base_branch : String) where
  -- The branch has a head, and exactly the pull request is the candidate of it that is merged; the heads of
  -- the base branch are not known to differ.
  abbrev pub IsMerged : GitReads → Option (List Fields) → Observation → Type 0
  IsMerged git candidates o =
      (head : String) × (cs : List Fields) × (git.local_head ≡ some head)
      × (candidates ≡ some cs)
      × (optional o.pr ≡ exact_with upper text_of branch base_branch head "MERGED" cs)
      × (o.remote_merged ≡ true)
      × (differ git.local_main_head git.remote_main_head ≡ false)
