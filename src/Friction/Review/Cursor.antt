-- ===== src/Friction/Review/Cursor.antt =====
-- The review cursor moves over a part of the pending events.
use dev_platform.Base.{
  ℕ, suc, ◌≤◌, ◌≡◌, refl, ◌∙◌, sym, ap, Bool, String, Option, none, some, arith, Bool-cases, inl,
  inr, ltb,
}
use dev_platform.Base.{List}
use dev_platform.Base.Json.{
  pos, null, bool, int, float, str, arr, obj, Fields, close, set_field, set_default, get_or,
}
use dev_platform.Base.Lookup.{lookup-set_field-other, lookup-set_default-other}
use dev_platform.Base.Result.{ok, >>=-eq-ok, ok-injective}
use dev_platform.Rollout.Identity.{as_int}
use dev_platform.Friction.{Readers, LogFile, StateFile, absent, broken, stored}
use dev_platform.Friction.Events.{read_events}
use dev_platform.Friction.State.{
  valid_count, reviewed_of, routes_of, checkpoints_of, translate, with_routes, checked_payload,
  read_state, stored_count,
}
use dev_platform.Friction.Review.{
  Report, report_of, index_of, advanced, review_payload, mark_reviewed,
}

advanced-ok :
    (id now report : String) (current : ℕ) (found : Option ℕ) {payload : Fields}
    → advanced id now report current found ≡ ok payload
    → (index : ℕ) × (found ≡ some index)
      × (current ≤ suc index)
      × (payload ≡ review_payload id now report (suc index))
unfolding advanced
advanced-ok id now report current none h = cc
advanced-ok id now report current (some index) h = elim (Bool-cases (ltb (suc index) current)) [
  | inl e ↦ cc
  | inr e ↦ (index, refl, ground arith, sym (ok-injective (rw e at h)))
]

-- The parts of a mark that is accepted.
pub mark_reviewed-parts :
    (readers : Readers) (tolerant : Bool) (id : String) (report : Report) (now : String)
    (log : LogFile) (file : StateFile) {payload : Fields}
    → mark_reviewed readers tolerant id report now log file ≡ ok payload
    → (path : String) × (events : List Fields) × (state : Fields) × (current : ℕ) × (index : ℕ)
      × (read_events readers tolerant none log ≡ ok events)
      × (read_state readers log file ≡ ok state)
      × (reviewed_of state ≡ ok current)
      × (index_of id events ≡ some index)
      × (current ≤ suc index)
      × (payload ≡ review_payload id now path (suc index))
unfolding mark_reviewed
mark_reviewed-parts readers tolerant id report now log file h =
    let (path, p, h1) = >>=-eq-ok (report_of report) _ h in
    let (events, e, h2) = >>=-eq-ok (read_events readers tolerant none log) _ h1 in
    let (state, s, h3) = >>=-eq-ok (read_state readers log file) _ h2 in
    let (current, c, h4) = >>=-eq-ok (reviewed_of state) _ h3 in
    let (index, i, le, r) = advanced-ok id now path current (index_of id events) h4 in
    (path, events, state, current, index, e, s, c, i, le, r)

reviewed_of-with_routes :
    (payload translated : Fields)
    → reviewed_of (with_routes payload translated) ≡ reviewed_of payload
unfolding reviewed_of with_routes
reviewed_of-with_routes payload translated =
    ap (λ j. valid_count (as_int (some (get_or (int (pos 0)) j))))
      (lookup-set_default-other "reviewed_count" "checkpoints" _ routed refl
        ∙ (lookup-set_field-other "reviewed_count" "routes" _ versioned refl
            ∙ lookup-set_default-other "reviewed_count" "version" _ payload refl))
  where
    versioned : Fields
    versioned = set_default "version" (int (pos 2)) payload

    routed : Fields
    routed = set_field "routes" (obj translated) versioned

checked-count :
    (readers : Readers) (log : LogFile) (payload : Fields) {state : Fields}
    → checked_payload readers log payload ≡ ok state
    → reviewed_of state ≡ reviewed_of payload
unfolding checked_payload
checked-count readers log payload h =
    let (n, a, h1) = >>=-eq-ok (reviewed_of payload) _ h in
    let (routes, b, h2) = >>=-eq-ok (routes_of payload) _ h1 in
    let (checkpoints, c, h3) = >>=-eq-ok (checkpoints_of payload) _ h2 in
    let (translated, d, h4) = >>=-eq-ok (translate readers log routes close) _ h3 in
    ap reviewed_of (sym (ok-injective h4)) ∙ reviewed_of-with_routes payload translated

-- The count of the state that is read is the one in the file.
pub read_state-count :
    (readers : Readers) (log : LogFile) (file : StateFile) {state : Fields}
    → read_state readers log file ≡ ok state
    → reviewed_of state ≡ stored_count file
unfolding read_state stored_count
read_state-count readers log absent h = ap reviewed_of (sym (ok-injective h))
read_state-count readers log broken h = cc
read_state-count readers log (stored (obj payload)) h = checked-count readers log payload h
read_state-count readers log (stored null) h = cc
read_state-count readers log (stored (bool b)) h = cc
read_state-count readers log (stored (int z)) h = cc
read_state-count readers log (stored (float s)) h = cc
read_state-count readers log (stored (str s)) h = cc
read_state-count readers log (stored (arr js)) h = cc

checked-counted :
    (readers : Readers) (log : LogFile) (payload : Fields) {state : Fields}
    → checked_payload readers log payload ≡ ok state
    → (n : ℕ) × (reviewed_of payload ≡ ok n)
unfolding checked_payload
checked-counted readers log payload h =
    let (n, a, h1) = >>=-eq-ok (reviewed_of payload) _ h in (n, a)

-- A state that is read has a count.
pub read_state-counted :
    (readers : Readers) (log : LogFile) (file : StateFile) {state : Fields}
    → read_state readers log file ≡ ok state
    → (n : ℕ) × (stored_count file ≡ ok n)
unfolding read_state stored_count
read_state-counted readers log absent h = (0, refl)
read_state-counted readers log broken h = cc
read_state-counted readers log (stored (obj payload)) h = checked-counted readers log payload h
read_state-counted readers log (stored null) h = cc
read_state-counted readers log (stored (bool b)) h = cc
read_state-counted readers log (stored (int z)) h = cc
read_state-counted readers log (stored (float s)) h = cc
read_state-counted readers log (stored (str s)) h = cc
read_state-counted readers log (stored (arr js)) h = cc
