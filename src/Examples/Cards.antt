-- ===== src/Examples/Cards.antt =====
-- A Requirement in design whose card has no status yet, and a blocked task without a pull request.
use dev_platform.Base.{String, true, Option, none, some, List, [], ◌∷◌, All}
use dev_platform.Base.Json.{str, obj, Fields, close, field}
use dev_platform.Base.Result.{Result, ok}
use dev_platform.Publication.ExactHead.{available, nothing_found}
use dev_platform.Card.{CardFault, CardAnswers, resume_from_scope_conflict}
use dev_platform.Card.Membership.{MembershipAnswers}
use dev_platform.Card.Requirement.{claim_started}
use dev_platform.Card.Claimed.{IsClaim, claim_started-IsNonterminal}
use dev_platform.Card.Resumed.{IsResumed, resume_from_scope_conflict-IsResumed}

abbrev projection : Fields
projection =
    field "requirement" (str "o/r#1")
      (field "progress" (obj (field "stage" (str "design") close)) close)

abbrev in_backlog : CardAnswers
in_backlog = record {
  has_source = true;
  seen = ok (some "Backlog");
  read = ok (some "Backlog");
  written = ok tt;
}

abbrev first_read : Result CardFault (Option String)
first_read = ok (some "Backlog")

abbrev without_status : MembershipAnswers
without_status = record {
  items = ok (none ∷ []);
  added = ok tt;
  again = ok none;
  initialized = ok tt;
  read_back = ok (some "Backlog");
}

abbrev claim_sent : List String
claim_sent = "Backlog" ∷ "In progress" ∷ []

claim_started-IsNonterminal_example : IsClaim without_status true first_read claim_sent
unfolding claim_started
claim_started-IsNonterminal_example =
    claim_started-IsNonterminal "o/r#1" without_status first_read (ok projection) in_backlog

abbrev blocked_card : CardAnswers
blocked_card = record {
  has_source = true;
  seen = ok (some "Blocked");
  read = ok (some "Blocked");
  written = ok tt;
}

resume_from_scope_conflict-IsResumed_example :
    All (IsResumed (available nothing_found) blocked_card) ("In progress" ∷ [])
unfolding resume_from_scope_conflict
resume_from_scope_conflict-IsResumed_example =
    resume_from_scope_conflict-IsResumed true (available nothing_found) blocked_card
