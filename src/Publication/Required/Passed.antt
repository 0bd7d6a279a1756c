-- ===== src/Publication/Required/Passed.antt =====
-- What a state of passed checks rests on.
use mathlib.Core.Path.{subst}
use dev_platform.Base.{
  String, ◌≡◌, refl, ap, ◌∙◌, Bool, true, false, ◌==◌, eq_iff, Option, none, some, map, Bool-cases,
  inl, inr,
}
use dev_platform.Base.{List, [], ◌∷◌, any, all, contains, is_empty, if◌then◌else◌}
use dev_platform.Base.Result.{Result, ok, err, ◌>>◌, >>=-eq-ok, ok-injective}
use dev_platform.Base.Json.{
  ℤ, Json, null, bool, int, float, str, arr, obj, Items, Fields, lookup, to_list, as_text,
}
use dev_platform.Publication.Required.{
  Cause, CheckState, failed, passed, pending, unknown, unsupported_state,
}
use dev_platform.Publication.Required.{
  Answer, value, unavailable, not_json, ChecksAnswer, listed, none_reported, unreadable,
}
use dev_platform.Publication.Required.{
  passed_states, failed_states, dicts, required, fields_of, unreported, protected_required_contexts,
  state_at, classify_rows, classify_required_checks, rows_state, reported, observe_required_checks,
  has_head, require_expected_head, base_name, in_order, observe, or_unknown,
  required_check_state_for_ref,
}

required-true : (b : Bool) (cause : Cause) (u : Unit {0}) → required b cause ≡ ok u → b ≡ true
unfolding required
required-true true cause u h = refl
required-true false cause u h = cc

after_state :
    (after : Result Cause (Unit {0})) (seen state : CheckState)
    → (after >> ok seen) ≡ ok state
    → (seen ≡ state) × ((v : Unit {0}) × (after ≡ ok v))
after_state (ok v) seen state h = (ok-injective h, (v, refl))
after_state (err c) seen state h = cc

in_order-eq-ok :
    (before : Result Cause (Unit {0})) (base : Result Cause Fields)
    (named : Fields → Result Cause String) (observed : String → Result Cause CheckState)
    (after : Result Cause (Unit {0})) (state : CheckState)
    → in_order before base named observed after ≡ ok state
    → ((u : Unit {0}) × (before ≡ ok u))
      × ((fs : Fields) × (name : String) × (base ≡ ok fs)
          × (named fs ≡ ok name)
          × (observed name ≡ ok state))
      × ((v : Unit {0}) × (after ≡ ok v))
unfolding in_order
in_order-eq-ok (err c) base named observed after state h = cc
in_order-eq-ok (ok u) base named observed after state h =
    let (fs, hf, h) = >>=-eq-ok base _ h in
    let (name, hn, h) = >>=-eq-ok (named fs) _ h in
    let (seen, ho, h) = >>=-eq-ok (observed name) _ h in
    (
      (u, refl),
      (fs, name, hf, hn, ho ∙ ap ok (after_state after seen state h).0),
      (after_state after seen state h).1,
    )

module _ (upper : String → String) (text_of : Json → String) where
  -- There are checks, and the state of each passes.
  abbrev pub AllPassed : List Fields → Type 0
  AllPassed rows =
      (is_empty rows ≡ false)
      × (all (contains passed_states) (map (state_at upper text_of) rows) ≡ true)

  -- The answer holds these rows.
  abbrev pub Lists : ChecksAnswer → List Fields → Type 0
  Lists checks rows =
      (items : Items) × (checks ≡ listed (value (arr items))) × (dicts (to_list items) ≡ some rows)

  -- The answer is of a pull request with the head.
  abbrev pub AtHead : String → Answer → Type 0
  AtHead expected answer =
      (fs : Fields) × (answer ≡ value (obj fs)) × (has_head upper text_of expected fs ≡ true)

  -- The answer is of a pull request into the branch.
  abbrev pub Targets : String → Answer → Type 0
  Targets main answer =
      (fs : Fields) × (answer ≡ value (obj fs)) × (as_text (lookup "baseRefName" fs) ≡ some main)

  fields_of-eq-ok : (a : Answer) (fs : Fields) → fields_of a ≡ ok fs → a ≡ value (obj fs)
  unfolding fields_of
  fields_of-eq-ok unavailable fs h = cc
  fields_of-eq-ok not_json fs h = cc
  fields_of-eq-ok (value (obj gs)) fs h = ap (λ x. value (obj x)) (ok-injective h)
  fields_of-eq-ok (value null) fs h = cc
  fields_of-eq-ok (value (bool b)) fs h = cc
  fields_of-eq-ok (value (int z)) fs h = cc
  fields_of-eq-ok (value (float s)) fs h = cc
  fields_of-eq-ok (value (str s)) fs h = cc
  fields_of-eq-ok (value (arr js)) fs h = cc

  require_expected_head-AtHead :
      (expected : String) (a : Answer) (u : Unit {0})
      → require_expected_head upper text_of expected a ≡ ok u
      → AtHead expected a
  unfolding require_expected_head
  require_expected_head-AtHead expected a u h =
      let (fs, e, k) = >>=-eq-ok (fields_of a) _ h in
      (fs, fields_of-eq-ok a fs e, required-true _ _ u k)

  base_name-eq-ok : (o : Option String) (m : String) → base_name upper text_of o ≡ ok m → o ≡ some m
  unfolding base_name
  base_name-eq-ok none m h = cc
  base_name-eq-ok (some s) m h = elim (Bool-cases (s == "")) [
    | inl e ↦ cc (rw e at h)
    | inr e ↦ ap some (ok-injective (rw e at h))
  ]

  classify_rows-AllPassed :
      (rows out : List Fields)
      → classify_rows upper text_of rows ≡ passed out
      → (rows ≡ out) × AllPassed rows
  unfolding classify_rows
  classify_rows-AllPassed [] out h = cc
  classify_rows-AllPassed (row ∷ rows) out h =
      go (any (contains failed_states) (map (state_at upper text_of) (row ∷ rows)))
        (all (contains passed_states) (map (state_at upper text_of) (row ∷ rows))) refl _ _ h
    where
      go :
          (a b : Bool)
          → all (contains passed_states) (map (state_at upper text_of) (row ∷ rows)) ≡ b
          → (c : Bool) (names : List String)
          → (if a
              then failed names (row ∷ rows)
              else if b
              then passed (row ∷ rows)
              else if c
              then pending (row ∷ rows)
              else unknown unsupported_state)
            ≡ passed out
          → ((row ∷ rows) ≡ out) × AllPassed (row ∷ rows)
      go true b e c names h = cc
      go false true e c names h = (cc, (refl, e))
      go false false e true names h = cc
      go false false e false names h = cc

  classify-AllPassed :
      (o : Option (List Fields)) (out : List Fields)
      → classify_required_checks upper text_of o ≡ passed out
      → (o ≡ some out) × AllPassed out
  unfolding classify_required_checks
  classify-AllPassed none out h = cc
  classify-AllPassed (some rows) out h =
      let (e, p) = classify_rows-AllPassed rows out h in (ap some e, subst AllPassed e p)

  rows_state-Lists :
      (a : Answer) (out : List Fields)
      → rows_state upper text_of a ≡ ok (passed out)
      → Lists (listed a) out × AllPassed out
  unfolding rows_state
  rows_state-Lists unavailable out h = cc
  rows_state-Lists not_json out h = cc
  rows_state-Lists (value (arr items)) out h =
      let (e, p) = classify-AllPassed (dicts (to_list items)) out (ok-injective h) in
      ((items, refl, e), p)
  rows_state-Lists (value (obj fs)) out h = cc
  rows_state-Lists (value null) out h = cc
  rows_state-Lists (value (bool b)) out h = cc
  rows_state-Lists (value (int z)) out h = cc
  rows_state-Lists (value (float s)) out h = cc
  rows_state-Lists (value (str s)) out h = cc

  unreported-passed :
      (cs : List (String × Option ℤ)) (out : List Fields) → unreported cs ≡ passed out → ⊥
  unfolding unreported
  unreported-passed [] out h = cc
  unreported-passed (c ∷ cs) out h = cc

  reported-Lists :
      (base : String) (protection : Answer) (checks : ChecksAnswer) (out : List Fields)
      → reported upper text_of base protection checks ≡ ok (passed out)
      → Lists checks out × AllPassed out
  unfolding reported
  reported-Lists base protection (listed a) out h = rows_state-Lists a out h
  reported-Lists base protection none_reported out h =
      let (cs, e, k) = >>=-eq-ok (protected_required_contexts base protection) _ h in
      elim (unreported-passed cs out (ok-injective k)) [ ]
  reported-Lists base protection unreadable out h = cc

  observe_required_checks-Lists :
      (base main : String) (checks : ChecksAnswer) (protection : Answer) (out : List Fields)
      → observe_required_checks upper text_of base main checks protection ≡ ok (passed out)
      → (base ≡ main) × Lists checks out × AllPassed out
  unfolding observe_required_checks
  observe_required_checks-Lists base main checks protection out h =
      elim (Bool-cases (base == main)) [
        | inl e ↦
            (let (l, p) = reported-Lists base protection checks out (rw e at h) in
              ((eq_iff base main).0 e, l, p))
        | inr e ↦ cc (rw e at h)
      ]

  or_unknown-passed :
      (r : Result Cause CheckState) (out : List Fields)
      → or_unknown upper text_of r ≡ passed out
      → r ≡ ok (passed out)
  unfolding or_unknown
  or_unknown-passed (ok s) out h = ap ok h
  or_unknown-passed (err cause) out h = cc

  observe-passed :
      (main expected : String) (before base : Answer) (checks : ChecksAnswer)
      (protection after : Answer) (out : List Fields)
      → observe upper text_of main expected before base checks protection after ≡ ok (passed out)
      → AtHead expected before
        × Targets main base
        × Lists checks out
        × AllPassed out
        × AtHead expected after
  unfolding observe
  observe-passed main expected before base checks protection after out h =
      let ((u, hb), (fs, name, hf, hn, ho), (v, ha)) =
        in_order-eq-ok (require_expected_head upper text_of expected before) (fields_of base)
          (λ fs. base_name upper text_of (as_text (lookup "baseRefName" fs)))
          (λ name. observe_required_checks upper text_of name main checks protection)
          (require_expected_head upper text_of expected after) (passed out) h in
      let (same, l, p) = observe_required_checks-Lists name main checks protection out ho in
      (
        require_expected_head-AtHead expected before u hb,
        (fs, fields_of-eq-ok base fs hf, base_name-eq-ok _ name hn ∙ ap some same),
        l,
        p,
        require_expected_head-AtHead expected after v ha,
      )

  -- Where the main branch is named and the state is `passed` with some rows, the pull request has the
  -- expected head before and after the checks are read, its base is the main branch, the rows are those of
  -- GitHub's answer, there is at least one, and the state of each passes.
  pub required_check_state-passed :
      (main : String) (expected : String) (before base : Answer) (checks : ChecksAnswer)
      (protection after : Answer) (rows : List Fields)
      → required_check_state_for_ref upper text_of
          (some main)
          expected
          before
          base
          checks
          protection
          after
        ≡ passed rows
      → AtHead expected before
        × Targets main base
        × Lists checks rows
        × AllPassed rows
        × AtHead expected after
  unfolding required_check_state_for_ref
  required_check_state-passed main expected before base checks protection after rows h =
      elim (Bool-cases (main == "")) [
        | inl e ↦ cc (rw e at h)
        | inr e ↦
            observe-passed main expected before base checks protection after rows
              (or_unknown-passed _ rows (rw e at h))
      ]
