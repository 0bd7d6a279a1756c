-- ===== src/Card.antt =====
-- The card of a Requirement or a managed task on its Project board: `observe`, `reconcile` and
-- `resume_from_scope_conflict` of `template/scripts/managed_project_status.py`. What GitHub answers to each read and
-- write is an input; the statuses that are sent are returned beside the result, also where the write fails. A read
-- may show a change that another process has made.
pub mod Membership
pub mod Requirement
pub mod Claimed
pub mod Resumed
use dev_platform.Base.{
  String, Bool, true, false, not, ◌&&◌, ◌||◌, Option, none, some, ◌==◌, List, [], ◌∷◌, contains,
  if◌then◌else◌,
}
use dev_platform.Base.Result.{Result, err, ok, ◌>>=◌, ◌>>◌}
use dev_platform.Publication.ExactHead.{Found, HeadLookup, available, not_available}

-- `ManagedProjectStatusError`, `RequirementBoardError`, and any other exception.
pub data CardFault : Type 0 where
  status_error : String → CardFault
  unsupported_status : CardFault
  no_lookup : CardFault
  already_merged : CardFault
  unsupported_stage : CardFault
  other_requirement : CardFault
  no_progress : CardFault
  no_card : CardFault
  card_gone : CardFault
  several_items : CardFault
  not_confirmed : CardFault
  not_claimed : CardFault → CardFault
  uncaught : CardFault

abbrev pub expected_statuses : List String
expected_statuses = "Backlog" ∷ "Ready" ∷ "In progress" ∷ "In review" ∷ "Blocked" ∷ "Done" ∷ []

abbrev pub automated_statuses : List String
automated_statuses = "In progress" ∷ "In review" ∷ "Blocked" ∷ "Done" ∷ []

-- What is sent, and what the call ends with.
abbrev pub Sent : Type 0 → Type 0
Sent A = List String × Result CardFault A

unfoldable pub is_status : String → Option String → Bool
is_status status none = false
is_status status (some current) = current == status

-- The status of the card, for a task that has a source issue.
unfoldable pub observe_card :
    Bool → Result CardFault (Option String) → Result CardFault (Option (Option String))
observe_card false read = ok none
observe_card true read = read >>= λ current. ok (some current)

unfoldable pub after_read :
    String
    → Result CardFault Unit
    → Result CardFault (Option String)
    → Sent (Option (String × Bool))
unfolding is_status
after_read desired written (err e) = ([], err e)
after_read desired written (ok current) =
    if is_status desired current
    then ([], ok (some (desired, false)))
    else (desired ∷ [], written >> ok (some (desired, true)))

-- The status that is shown afterwards, and whether it changed.
unfoldable pub reconcile_card :
    String
    → Bool
    → Result CardFault (Option String)
    → Result CardFault Unit
    → Sent (Option (String × Bool))
unfolding after_read
reconcile_card desired has_source read written =
    if not (contains automated_statuses desired)
    then ([], err unsupported_status)
    else if has_source
    then after_read desired written read
    else ([], ok none)

-- What the two calls of the board answer: the first read, and the read and the write of `reconcile`.
pub record CardAnswers : Type 0 where
  pub has_source : Bool
  pub seen : Result CardFault (Option String)
  pub read : Result CardFault (Option String)
  pub written : Result CardFault Unit

-- The state of a task that resumes, from the lookup of the pull request of its exact head.
unfoldable pub derive_resume_status : Bool → HeadLookup → Result CardFault String
derive_resume_status false found = err (status_error "authentication")
derive_resume_status true (not_available e) = err no_lookup
derive_resume_status true (available found) = elim found.exact_merged [
  | none ↦ elim found.exact_open [ none ↦ ok "In progress" | some pr ↦ ok "In review" ]
  | some pr ↦ err already_merged
]

-- The answer where a call fails with `ManagedProjectStatusError` is `None`.
unfoldable pub unless_uncaught : CardFault → Result CardFault (Option (String × Bool))
unless_uncaught uncaught = err uncaught
unless_uncaught fault = ok none

unfoldable pub or_nothing : Sent (Option (String × Bool)) → Sent (Option (String × Bool))
unfolding unless_uncaught
or_nothing (sent, err e) = (sent, unless_uncaught e)
or_nothing (sent, ok r) = (sent, ok r)

unfoldable pub resume_to : CardAnswers → Result CardFault String → Sent (Option (String × Bool))
unfolding or_nothing unless_uncaught reconcile_card
resume_to a (err e) = ([], unless_uncaught e)
resume_to a (ok desired) = or_nothing (reconcile_card desired true a.read a.written)

unfoldable pub resume_from_scope_conflict :
    Bool → HeadLookup → CardAnswers → Sent (Option (String × Bool))
unfolding observe_card is_status resume_to derive_resume_status unless_uncaught
resume_from_scope_conflict has_env found a = elim (observe_card a.has_source a.seen) [
  | err e ↦ ([], unless_uncaught e)
  | ok seen ↦ elim seen [
    | none ↦ ([], ok none)
    | some current ↦
        if is_status "Blocked" current
        then resume_to a (derive_resume_status has_env found)
        else ([], ok none)
  ]
]
