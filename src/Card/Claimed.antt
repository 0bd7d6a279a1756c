-- ===== src/Card/Claimed.antt =====
-- What a claim of a Requirement's card sends.
use mathlib.Core.Path.{subst}
use mathlib.Core.List.{append-nil}
use dev_platform.Base.{
  ◌≡◌, refl, sym, String, Bool, true, false, not, Option, none, some, ◌==◌, List, [], ◌∷◌, contains,
  ◌++◌, All, if◌then◌else◌, ◌⊎◌, inl, inr,
}
use dev_platform.Base.Json.{Json, null, bool, int, float, str, arr, obj, Fields, lookup}
use dev_platform.Base.Result.{Result, err, ok, ok-injective}
use dev_platform.Card.{
  CardFault, unsupported_status, unsupported_stage, automated_statuses, Sent, is_status,
  observe_card, after_read, reconcile_card, CardAnswers, other_requirement,
}
use dev_platform.Card.Membership.{MembershipAnswers, Membership, ensure_item}
use dev_platform.Card.Membership.Initial.{IsInitial, ensure_item-sent}
use dev_platform.Card.Requirement.{
  status_for_stage, desired_nonterminal_status, Projected, projected_of, then_projected,
  after_observation, with_observation, with_desired, with_progress, is_projection_of,
  reconcile_nonterminal, claim_result, after_first_read, then_claimed, claim_started,
}

abbrev pub IsNonterminal : String → Type 0
IsNonterminal status = (status ≡ "In progress") ⊎ (status ≡ "Blocked")

-- what is sent
abbrev sent_of : {A : Type 0} → Sent A → List String
sent_of s = s.0

nothing_or :
    (desired : String) (b : Bool) {A : Type 0} (r s : Result CardFault A)
    → All (λ status. status ≡ desired) (sent_of {A = A} (if b then ([], r) else (desired ∷ [], s)))
nothing_or desired true r s = tt
nothing_or desired false r s = (refl, tt)

after_read-sent :
    (desired : String) (written : Result CardFault Unit) (read : Result CardFault (Option String))
    → All (λ status. status ≡ desired) (after_read desired written read).0
unfolding after_read
after_read-sent desired written (err e) = tt
after_read-sent desired written (ok current) = nothing_or desired (is_status desired current) _ _

pub reconcile_card-sent :
    (desired : String) (has_source : Bool) (read : Result CardFault (Option String))
    (written : Result CardFault Unit)
    → All (λ status. status ≡ desired) (reconcile_card desired has_source read written).0
unfolding reconcile_card
reconcile_card-sent desired has_source read written =
    go (not (contains automated_statuses desired)) has_source
  where
    go :
        (a b : Bool)
        → All
            (λ status. status ≡ desired)
            (sent_of {A = Option (String × Bool)} (
              if a
              then ([], err unsupported_status)
              else if b
              then after_read desired written read
              else ([], ok none)))
    go true b = tt
    go false true = after_read-sent desired written read
    go false false = tt

status_for_stage-IsNonterminal :
    (stage desired : String) → status_for_stage stage ≡ ok desired → IsNonterminal desired
unfolding status_for_stage
status_for_stage-IsNonterminal stage desired h =
    go (contains ("pre-authoring" ∷ "design" ∷ "ready" ∷ "implementation" ∷ "done" ∷ []) stage)
      (contains ("human-decision" ∷ "blocked" ∷ "unknown" ∷ []) stage) h
  where
    go :
        (a b : Bool)
        → (if a then ok "In progress" else if b then ok "Blocked" else err unsupported_stage)
          ≡ ok desired
        → IsNonterminal desired
    go true b k = inl (sym (ok-injective k))
    go false true k = inr (sym (ok-injective k))
    go false false k = cc

desired-IsNonterminal :
    (stage : Option Json) (desired : String)
    → desired_nonterminal_status stage ≡ ok desired
    → IsNonterminal desired
unfolding desired_nonterminal_status
desired-IsNonterminal none desired h = cc
desired-IsNonterminal (some (str stage)) desired h = status_for_stage-IsNonterminal stage desired h
desired-IsNonterminal (some null) desired h = cc
desired-IsNonterminal (some (bool b)) desired h = cc
desired-IsNonterminal (some (int z)) desired h = cc
desired-IsNonterminal (some (float f)) desired h = cc
desired-IsNonterminal (some (arr js)) desired h = cc
desired-IsNonterminal (some (obj fs)) desired h = cc

all-IsNonterminal :
    (desired : String) (sent : List String)
    → IsNonterminal desired
    → All (λ status. status ≡ desired) sent
    → All IsNonterminal sent
all-IsNonterminal desired [] n h = tt
all-IsNonterminal desired (s ∷ ss) n (e, h) =
    (subst IsNonterminal (sym e) n, all-IsNonterminal desired ss n h)

module _ (progress : Fields) (a : CardAnswers) where
  seen-sent :
      (desired current : String)
      → IsNonterminal desired
      → All IsNonterminal (after_observation progress a desired current).0
  unfolding after_observation then_projected
  seen-sent desired current n = go (current == desired)
    where
      go :
          (b : Bool)
          → All IsNonterminal (
              sent_of {A = Projected} (
                if b
                then ([], projected_of progress (some (desired, false)))
                else then_projected progress
                    (reconcile_card desired a.has_source a.read a.written)))
      go true = tt
      go false =
          all-IsNonterminal desired _ n (reconcile_card-sent desired a.has_source a.read a.written)

  observation-sent :
      (desired : String) (o : Result CardFault (Option (Option String)))
      → IsNonterminal desired
      → All IsNonterminal (with_observation progress a desired o).0
  unfolding with_observation
  observation-sent desired (err e) n = tt
  observation-sent desired (ok none) n = tt
  observation-sent desired (ok (some none)) n = tt
  observation-sent desired (ok (some (some current))) n = seen-sent desired current n

  desired-sent :
      (d : Result CardFault String)
      → ((desired : String) → d ≡ ok desired → IsNonterminal desired)
      → All IsNonterminal (with_desired progress a d).0
  unfolding with_desired
  desired-sent (err e) f = tt
  desired-sent (ok desired) f =
      observation-sent desired (observe_card a.has_source a.seen) (f desired refl)

progress-sent : (a : CardAnswers) (j : Option Json) → All IsNonterminal (with_progress a j).0
unfolding with_progress
progress-sent a (some (obj progress)) =
    desired-sent progress a (desired_nonterminal_status (lookup "stage" progress))
      (desired-IsNonterminal (lookup "stage" progress))
progress-sent a none = tt
progress-sent a (some null) = tt
progress-sent a (some (bool b)) = tt
progress-sent a (some (int z)) = tt
progress-sent a (some (float f)) = tt
progress-sent a (some (str s)) = tt
progress-sent a (some (arr js)) = tt

reconcile_nonterminal-IsNonterminal :
    (requirement : String) (projection : Result CardFault Fields) (a : CardAnswers)
    → All IsNonterminal (reconcile_nonterminal requirement projection a).0
unfolding reconcile_nonterminal
reconcile_nonterminal-IsNonterminal requirement (err e) a = tt
reconcile_nonterminal-IsNonterminal requirement (ok projection) a =
    go (is_projection_of requirement (lookup "requirement" projection))
  where
    go :
        (b : Bool)
        → All IsNonterminal (
            sent_of {A = Projected} (
              if b
              then with_progress a (lookup "progress" projection)
              else ([], err other_requirement)))
    go true = progress-sent a (lookup "progress" projection)
    go false = tt

claim_result-sent : (s : Sent Projected) → (claim_result s).0 ≡ s.0
unfolding claim_result
claim_result-sent (sent, err e) = refl
claim_result-sent (sent, ok r) = refl

first_read-sent :
    (requirement : String) (projection : Result CardFault Fields) (a : CardAnswers)
    (o : Result CardFault (Option (Option String)))
    → All IsNonterminal (after_first_read requirement projection a o).0
unfolding after_first_read
first_read-sent requirement projection a (err e) = tt
first_read-sent requirement projection a (ok none) =
    subst (All IsNonterminal)
      (sym (claim_result-sent (reconcile_nonterminal requirement projection a)))
      (reconcile_nonterminal-IsNonterminal requirement projection a)
first_read-sent requirement projection a (ok (some current)) = go (is_status "Done" current)
  where
    go :
        (b : Bool)
        → All IsNonterminal (
            sent_of {A = Unit} (
              if b
              then ([], ok tt)
              else claim_result (reconcile_nonterminal requirement projection a)))
    go true = tt
    go false =
        subst (All IsNonterminal)
          (sym (claim_result-sent (reconcile_nonterminal requirement projection a)))
          (reconcile_nonterminal-IsNonterminal requirement projection a)

-- The statuses in two parts: those of the membership and those of the claim.
abbrev pub IsClaim :
    MembershipAnswers → Bool → Result CardFault (Option String) → List String → Type 0
IsClaim m has_source first sent =
    (initial claimed : List String) × (sent ≡ initial ++ claimed)
    × All (IsInitial m) initial
    × All IsNonterminal claimed
    × (has_source ≡ true → first ≡ ok (some "Done") → claimed ≡ [])

done_sends_nothing :
    (requirement : String) (projection : Result CardFault Fields) (a : CardAnswers)
    (first : Result CardFault (Option String))
    → a.has_source ≡ true
    → first ≡ ok (some "Done")
    → (after_first_read requirement projection a (observe_card a.has_source first)).0 ≡ []
unfolding after_first_read
done_sends_nothing requirement projection a first s f = rw (s, f) refl

then_claimed-sent :
    (requirement : String) (m : MembershipAnswers) (first : Result CardFault (Option String))
    (projection : Result CardFault Fields) (a : CardAnswers) (ensured : Sent Membership)
    → All (IsInitial m) ensured.0
    → IsClaim m a.has_source first (then_claimed requirement first projection a ensured).0
unfolding then_claimed
then_claimed-sent requirement m first projection a (sent, err e) h =
    (sent, [], sym (append-nil sent), h, tt, λ s f. refl)
then_claimed-sent requirement m first projection a (sent, ok membership) h = (
  sent,
  (after_first_read requirement projection a (observe_card a.has_source first)).0,
  refl,
  h,
  first_read-sent requirement projection a (observe_card a.has_source first),
  done_sends_nothing requirement projection a first,
)

-- What a claim of a card sends has two parts. The first is of "Backlog" only, sent where the issue had no
-- item or one without a status and the read before the write shows no status. The second is of "In
-- progress" and "Blocked" only, and is empty where there is a source issue and the first read after the
-- membership shows "Done".
pub claim_started-IsNonterminal :
    (requirement : String) (m : MembershipAnswers) (first : Result CardFault (Option String))
    (projection : Result CardFault Fields) (a : CardAnswers)
    → IsClaim m a.has_source first (claim_started requirement m first projection a).0
unfolding claim_started
claim_started-IsNonterminal requirement m first projection a =
    then_claimed-sent requirement m first projection a (ensure_item "Backlog" m)
      (ensure_item-sent m)
