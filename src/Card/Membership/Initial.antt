-- ===== src/Card/Membership/Initial.antt =====
-- When the membership of a card sends a status.
use dev_platform.Base.{
  ◌≡◌, refl, String, Bool, true, false, Option, none, some, List, [], ◌∷◌, All, ◌⊎◌, inl, inr,
}
use dev_platform.Base.Result.{Result, err, ok}
use dev_platform.Card.{CardFault}
use dev_platform.Card.Membership.{
  MembershipAnswers, initialize_status, after_addition, with_items, ensure_item,
}

-- The status of a card that was seen without one, or without an item, and again before the write.
abbrev pub IsInitial : MembershipAnswers → String → Type 0
IsInitial m status =
    (status ≡ "Backlog") × ((m.items ≡ ok []) ⊎ (m.items ≡ ok (none ∷ []))) × (m.again ≡ ok none)

initialize-sent :
    (m : MembershipAnswers) (was_added : Bool) (again : Result CardFault (Option String))
    → m.again ≡ again
    → (m.items ≡ ok []) ⊎ (m.items ≡ ok (none ∷ []))
    → All (IsInitial m) (initialize_status "Backlog" m was_added again).0
unfolding initialize_status
initialize-sent m was_added (err e) h i = tt
initialize-sent m was_added (ok (some current)) h i = tt
initialize-sent m was_added (ok none) h i = ((refl, i, h), tt)

addition-sent :
    (m : MembershipAnswers) (added : Result CardFault Unit)
    → m.items ≡ ok []
    → All (IsInitial m) (after_addition "Backlog" m added).0
unfolding after_addition
addition-sent m (err e) i = tt
addition-sent m (ok u) i = initialize-sent m true m.again refl (inl i)

items-sent :
    (m : MembershipAnswers) (items : Result CardFault (List (Option String)))
    → m.items ≡ items
    → All (IsInitial m) (with_items "Backlog" m items).0
unfolding with_items
items-sent m (err e) i = tt
items-sent m (ok []) i = addition-sent m m.added i
items-sent m (ok (none ∷ [])) i = initialize-sent m false m.again refl (inr i)
items-sent m (ok (some current ∷ [])) i = tt
items-sent m (ok (s ∷ t ∷ ss)) i = tt

pub ensure_item-sent : (m : MembershipAnswers) → All (IsInitial m) (ensure_item "Backlog" m).0
unfolding ensure_item
ensure_item-sent m = items-sent m m.items refl
