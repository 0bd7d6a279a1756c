-- ===== src/Card/Membership.antt =====
-- `ensure_item` of `template/scripts/managed_project_status.py`: one item of the Project for an issue, with a status.
pub mod Initial
use dev_platform.Base.{
  String, Bool, true, false, not, ◌&&◌, Option, none, some, ◌==◌, List, [], ◌∷◌, contains,
  if◌then◌else◌,
}
use dev_platform.Base.Result.{Result, err, ok, ◌>>=◌, ◌>>◌}
use dev_platform.Card.{
  CardFault, unsupported_status, several_items, not_confirmed, expected_statuses, Sent,
}

-- What the calls of `ensure_item` answer: the statuses of the issue's items, or the fault of this read or of what
-- precedes it; the addition of an item; and the read before the write, the write, and the read after it.
pub record MembershipAnswers : Type 0 where
  pub items : Result CardFault (List (Option String))
  pub added : Result CardFault Unit
  pub again : Result CardFault (Option String)
  pub initialized : Result CardFault Unit
  pub read_back : Result CardFault (Option String)

pub record Membership : Type 0 where
  pub card_status : String
  pub was_added : Bool
  pub was_initialized : Bool

unfoldable pub confirm_membership :
    String → Bool → Bool → Option String → Result CardFault Membership
confirm_membership initial was_added was_initialized none = err not_confirmed
confirm_membership initial was_added was_initialized (some status) =
    if was_initialized && not (status == initial)
    then err not_confirmed
    else ok
        (record { card_status = status; was_added = was_added; was_initialized = was_initialized })

unfoldable pub initialize_status :
    String → MembershipAnswers → Bool → Result CardFault (Option String) → Sent Membership
unfolding confirm_membership
initialize_status initial m was_added (err e) = ([], err e)
initialize_status initial m was_added (ok (some current)) =
    ([], m.read_back >>= λ status. confirm_membership initial was_added false status)
initialize_status initial m was_added (ok none) = (
  initial ∷ [],
  m.initialized >> (m.read_back >>= λ status. confirm_membership initial was_added true status),
)

unfoldable pub after_addition : String → MembershipAnswers → Result CardFault Unit → Sent Membership
unfolding initialize_status
after_addition initial m (err e) = ([], err e)
after_addition initial m (ok u) = initialize_status initial m true m.again

unfoldable pub with_items :
    String → MembershipAnswers → Result CardFault (List (Option String)) → Sent Membership
unfolding after_addition initialize_status
with_items initial m (err e) = ([], err e)
with_items initial m (ok []) = after_addition initial m m.added
with_items initial m (ok (none ∷ [])) = initialize_status initial m false m.again
with_items initial m (ok (some current ∷ [])) =
    ([], ok (record { card_status = current; was_added = false; was_initialized = false }))
with_items initial m (ok (s ∷ t ∷ ss)) = ([], err several_items)

unfoldable pub ensure_item : String → MembershipAnswers → Sent Membership
unfolding with_items
ensure_item initial m =
    if not (contains expected_statuses initial)
    then ([], err unsupported_status)
    else with_items initial m m.items
