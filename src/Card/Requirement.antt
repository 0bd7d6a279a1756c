-- ===== src/Card/Requirement.antt =====
-- `template/scripts/requirement_board.py`: the nonterminal status of a Requirement's card, and the claim of a
-- Requirement that has started. The projection of the Requirement is an input.
use dev_platform.Base.{
  String, Bool, false, Option, none, some, ◌==◌, [], ◌∷◌, ◌++◌, contains, if◌then◌else◌,
}
use dev_platform.Base.Json.{Json, str, arr, obj, Fields, lookup}
use dev_platform.Base.Result.{Result, err, ok, ◌>>=◌}
use dev_platform.Card.{
  CardFault, unsupported_stage, other_requirement, no_progress, no_card, card_gone, not_claimed,
  uncaught, Sent, is_status, observe_card, reconcile_card, CardAnswers,
}
use dev_platform.Card.Membership.{MembershipAnswers, Membership, ensure_item}

unfoldable pub status_for_stage : String → Result CardFault String
status_for_stage stage =
    if contains ("pre-authoring" ∷ "design" ∷ "ready" ∷ "implementation" ∷ "done" ∷ []) stage
    then ok "In progress"
    else if contains ("human-decision" ∷ "blocked" ∷ "unknown" ∷ []) stage
    then ok "Blocked"
    else err unsupported_stage

-- A list or a dict has no hash.
unfoldable pub desired_nonterminal_status : Option Json → Result CardFault String
unfolding status_for_stage
desired_nonterminal_status (some (str stage)) = status_for_stage stage
desired_nonterminal_status (some (arr js)) = err uncaught
desired_nonterminal_status (some (obj fs)) = err uncaught
desired_nonterminal_status stage = err unsupported_stage

pub record Projected : Type 0 where
  pub stage : Option Json
  pub card_status : String
  pub has_changed : Bool
  pub reason : Option Json

unfoldable pub projected_of : Fields → Option (String × Bool) → Result CardFault Projected
unfolding lookup
projected_of progress none = err card_gone
projected_of progress (some (status, changed)) = ok (record {
  stage = lookup "stage" progress;
  card_status = status;
  has_changed = changed;
  reason = lookup "reason" progress;
})

unfoldable pub then_projected : Fields → Sent (Option (String × Bool)) → Sent Projected
unfolding projected_of
then_projected progress (sent, result) = (sent, result >>= λ r. projected_of progress r)

unfoldable pub after_observation : Fields → CardAnswers → String → String → Sent Projected
unfolding projected_of then_projected reconcile_card
after_observation progress a desired current =
    if current == desired
    then ([], projected_of progress (some (desired, false)))
    else then_projected progress (reconcile_card desired a.has_source a.read a.written)

unfoldable pub with_observation :
    Fields → CardAnswers → String → Result CardFault (Option (Option String)) → Sent Projected
unfolding after_observation
with_observation progress a desired (err e) = ([], err e)
with_observation progress a desired (ok none) = ([], err no_card)
with_observation progress a desired (ok (some none)) = ([], err no_card)
with_observation progress a desired (ok (some (some current))) =
    after_observation progress a desired current

unfoldable pub with_desired : Fields → CardAnswers → Result CardFault String → Sent Projected
unfolding with_observation observe_card
with_desired progress a (err e) = ([], err e)
with_desired progress a (ok desired) =
    with_observation progress a desired (observe_card a.has_source a.seen)

unfoldable pub with_progress : CardAnswers → Option Json → Sent Projected
unfolding with_desired desired_nonterminal_status lookup
with_progress a (some (obj progress)) =
    with_desired progress a (desired_nonterminal_status (lookup "stage" progress))
with_progress a j = ([], err no_progress)

-- `projection.get("requirement") != requirement`
unfoldable pub is_projection_of : String → Option Json → Bool
is_projection_of requirement (some (str s)) = s == requirement
is_projection_of requirement j = false

unfoldable pub reconcile_nonterminal :
    String → Result CardFault Fields → CardAnswers → Sent Projected
unfolding is_projection_of with_progress lookup
reconcile_nonterminal requirement (err e) a = ([], err e)
reconcile_nonterminal requirement (ok projection) a =
    if is_projection_of requirement (lookup "requirement" projection)
    then with_progress a (lookup "progress" projection)
    else ([], err other_requirement)

-- The errors that the claim reports as its own.
unfoldable pub claim_error : CardFault → CardFault
claim_error uncaught = uncaught
claim_error fault = not_claimed fault

unfoldable pub claim_result : Sent Projected → Sent Unit
unfolding claim_error
claim_result (sent, err e) = (sent, err (claim_error e))
claim_result (sent, ok r) = (sent, ok tt)

unfoldable pub after_first_read :
    String
    → Result CardFault Fields
    → CardAnswers
    → Result CardFault (Option (Option String))
    → Sent Unit
unfolding claim_error claim_result reconcile_nonterminal is_status
after_first_read requirement projection a (err e) = ([], err (claim_error e))
after_first_read requirement projection a (ok none) =
    claim_result (reconcile_nonterminal requirement projection a)
after_first_read requirement projection a (ok (some current)) =
    if is_status "Done" current
    then ([], ok tt)
    else claim_result (reconcile_nonterminal requirement projection a)

-- The claim after the membership of the card is settled.
unfoldable pub then_claimed :
    String
    → Result CardFault (Option String)
    → Result CardFault Fields
    → CardAnswers
    → Sent Membership
    → Sent Unit
unfolding claim_error after_first_read observe_card
then_claimed requirement first projection a (sent, err e) = (sent, err (claim_error e))
then_claimed requirement first projection a (sent, ok membership) =
    let claimed = after_first_read requirement projection a (observe_card a.has_source first) in
    (sent ++ claimed.0, claimed.1)

-- `first` is the read before `reconcile_nonterminal`.
unfoldable pub claim_started :
    String
    → MembershipAnswers
    → Result CardFault (Option String)
    → Result CardFault Fields
    → CardAnswers
    → Sent Unit
unfolding then_claimed ensure_item
claim_started requirement m first projection a =
    then_claimed requirement first projection a (ensure_item "Backlog" m)
