-- ===== src/Card/Resumed.antt =====
-- What a task that resumes sends.
use mathlib.Core.Path.{subst}
use dev_platform.Base.{
  some_inj, ◌≡◌, refl, ◌∙◌, sym, ap, String, Bool, true, false, Option, none, some, eq_iff, List,
  [], ◌∷◌, All, if◌then◌else◌, ◌⊎◌, inl, inr,
}
use dev_platform.Base.Json.{Fields}
use dev_platform.Base.Result.{Result, err, ok, ok-injective}
use dev_platform.Publication.ExactHead.{Found, HeadLookup, available, not_available}
use dev_platform.Card.{
  CardFault, already_merged, Sent, is_status, observe_card, reconcile_card, CardAnswers,
  derive_resume_status, unless_uncaught, or_nothing, resume_to, resume_from_scope_conflict,
}
use dev_platform.Card.Claimed.{reconcile_card-sent}

-- The status is that of the pull request of the exact head, which is not merged.
abbrev pub IsResumable : HeadLookup → String → Type 0
IsResumable lookup_result status =
    (found : Found) × (lookup_result ≡ available found)
    × (found.exact_merged ≡ none)
    × (((found.exact_open ≡ none) × (status ≡ "In progress"))
        ⊎ ((pr : Fields) × (found.exact_open ≡ some pr) × (status ≡ "In review")))

-- The card was seen as blocked, and the status may be resumed.
abbrev pub IsResumed : HeadLookup → CardAnswers → String → Type 0
IsResumed lookup_result a status =
    (a.has_source ≡ true) × (a.seen ≡ ok (some "Blocked")) × IsResumable lookup_result status

open_status :
    (found : Found) (o : Option Fields) (status : String)
    → found.exact_open ≡ o
    → (elim o as (λ p. Result CardFault String) [
      | none ↦ ok "In progress"
      | some pr ↦ ok "In review"
    ])
      ≡ ok status
    → ((found.exact_open ≡ none) × (status ≡ "In progress"))
      ⊎ ((pr : Fields) × (found.exact_open ≡ some pr) × (status ≡ "In review"))
open_status found none status e h = inl (e, sym (ok-injective h))
open_status found (some pr) status e h = inr (pr, e, sym (ok-injective h))

derive-IsResumable :
    (has_env : Bool) (l : HeadLookup) (status : String)
    → derive_resume_status has_env l ≡ ok status
    → IsResumable l status
unfolding derive_resume_status
derive-IsResumable false l status h = cc
derive-IsResumable true (not_available e) status h = cc
derive-IsResumable true (available found) status h = go found.exact_merged refl h
  where
    go :
        (m : Option Fields)
        → found.exact_merged ≡ m
        → (elim m as (λ p. Result CardFault String) [
          | none ↦ elim found.exact_open [ none ↦ ok "In progress" | some pr ↦ ok "In review" ]
          | some pr ↦ err already_merged
        ])
          ≡ ok status
        → IsResumable (available found) status
    go none e k = (found, refl, e, open_status found found.exact_open status refl k)
    go (some pr) e k = cc

abbrev resumed : Sent (Option (String × Bool)) → List String
resumed r = r.0

or_nothing-sent : (s : Sent (Option (String × Bool))) → (or_nothing s).0 ≡ s.0
unfolding or_nothing
or_nothing-sent (sent, err e) = refl
or_nothing-sent (sent, ok r) = refl

all_of :
    (desired : String) (P : String → Type 0) (sent : List String)
    → P desired
    → All (λ s. s ≡ desired) sent
    → All P sent
all_of desired P [] p h = tt
all_of desired P (s ∷ ss) p (e, h) = (subst P (sym e) p, all_of desired P ss p h)

resume_to-sent :
    (a : CardAnswers) (d : Result CardFault String) (P : String → Type 0)
    → ((status : String) → d ≡ ok status → P status)
    → All P (resume_to a d).0
unfolding resume_to
resume_to-sent a (err e) P f = tt
resume_to-sent a (ok desired) P f =
    subst (All P) (sym (or_nothing-sent (reconcile_card desired true a.read a.written)))
      (all_of desired P _ (f desired refl) (reconcile_card-sent desired true a.read a.written))

is_blocked :
    (current : Option String) → is_status "Blocked" current ≡ true → current ≡ some "Blocked"
unfolding is_status
is_blocked none h = cc
is_blocked (some current) h = ap some ((eq_iff current "Blocked").0 h)

observed :
    (has_source : Bool) (seen : Result CardFault (Option String)) (current : Option String)
    → observe_card has_source seen ≡ ok (some current)
    → (has_source ≡ true) × (seen ≡ ok current)
unfolding observe_card
observed false seen current h = cc
observed true (err e) current h = cc
observed true (ok c) current h = (refl, ap ok (some_inj (ok-injective h)))

-- Each status that is sent is sent because the card of a task with a source issue was seen as "Blocked" and
-- the lookup is available without a merged pull request of the exact head. It is "In review" where that
-- head has an open one, and "In progress" where it has none.
pub resume_from_scope_conflict-IsResumed :
    (has_env : Bool) (l : HeadLookup) (a : CardAnswers)
    → All (IsResumed l a) (resume_from_scope_conflict has_env l a).0
unfolding resume_from_scope_conflict
resume_from_scope_conflict-IsResumed has_env l a = go (observe_card a.has_source a.seen) refl
  where
    blocked_or_not :
        (current : Option String) (b : Bool)
        → observe_card a.has_source a.seen ≡ ok (some current)
        → is_status "Blocked" current ≡ b
        → All
            (IsResumed l a)
            (resumed (if b then resume_to a (derive_resume_status has_env l) else ([], ok none)))
    blocked_or_not current false e f = tt
    blocked_or_not current true e f =
        let (has_source, seen) = observed a.has_source a.seen current e in
        resume_to-sent a (derive_resume_status has_env l) (IsResumed l a) (λ status d.
          (has_source, seen ∙ ap ok (is_blocked current f), derive-IsResumable has_env l status d))

    go :
        (o : Result CardFault (Option (Option String)))
        → observe_card a.has_source a.seen ≡ o
        → All (IsResumed l a) (
            resumed (elim o as (λ p. Sent (Option (String × Bool))) [
              | err e ↦ ([], unless_uncaught e)
              | ok seen ↦ elim seen [
                | none ↦ ([], ok none)
                | some current ↦
                    if is_status "Blocked" current
                    then resume_to a (derive_resume_status has_env l)
                    else ([], ok none)
              ]
            ]))
    go (err e) f = tt
    go (ok none) f = tt
    go (ok (some current)) f = blocked_or_not current (is_status "Blocked" current) f refl
