-- ===== src/Friction/Review.antt =====
-- `pending_batch` and `mark_reviewed`. A report is what the file system says of its path: whether it is a file, and
-- its path below the root. The written state is what `json.loads` reads back.
pub mod Cursor
pub mod Moves
pub mod Behind
pub mod Emptied
use dev_platform.Base.{ℕ, suc, String, Bool, true, false, ◌||◌, ltb, leb, Option, none, some, ◌==◌}
use dev_platform.Base.{List, [], ◌∷◌, length, drop, if◌then◌else◌}
use dev_platform.Base.Json.{pos, Json, int, str, arr, obj, Fields, close, field, lookup}
use dev_platform.Base.Result.{Result, err, ok, ◌>>=◌, ◌>>◌}
use dev_platform.Rollout.Identity.{has_text}
use dev_platform.Friction.{
  Fault, min_events_too_small, cursor_ahead, no_report, report_outside, unknown_event,
  cursor_backwards, uncaught, Readers, LogFile, StateFile, stored,
}
use dev_platform.Friction.Events.{read_events}
use dev_platform.Friction.State.{reviewed_of, read_state}

pub data BatchReason : Type 0 where
  urgent_event : BatchReason
  enough_events : BatchReason
  not_ready : BatchReason

pub record Batch : Type 0 where
  pub is_ready : Bool
  pub reason : BatchReason
  pub minimum_events : ℕ
  pub total_events : ℕ
  pub reviewed_count : ℕ
  pub pending_count : ℕ
  pub through_id : Option Json
  pub events : List Fields

-- `event.get("severity") in {"high", "critical"}`; a list or a dict has no hash.
unfoldable pub is_urgent : Option Json → Result Fault Bool
is_urgent (some (str s)) = ok (s == "high" || s == "critical")
is_urgent (some (arr js)) = err uncaught
is_urgent (some (obj fs)) = err uncaught
is_urgent j = ok false

unfoldable pub any_urgent : List Fields → Result Fault Bool
unfolding is_urgent lookup
any_urgent [] = ok false
any_urgent (event ∷ events) =
    let rest = any_urgent events in
    is_urgent (lookup "severity" event) >>= λ urgent. if urgent then ok true else rest

-- `pending[-1].get("id")`
unfoldable pub last_id : List Fields → Option Json
unfolding lookup
last_id [] = none
last_id (event ∷ []) = lookup "id" event
last_id (event ∷ next ∷ events) = last_id (next ∷ events)

unfoldable pub batch_of : ℕ → ℕ → ℕ → List Fields → Bool → Batch
unfolding last_id
batch_of min_events total reviewed pending urgent =
    let ready = leb min_events (length pending) || urgent in
    record {
      is_ready = ready;
      reason = if urgent then urgent_event else if ready then enough_events else not_ready;
      minimum_events = min_events;
      total_events = total;
      reviewed_count = reviewed;
      pending_count = length pending;
      through_id = if ready then last_id pending else none;
      events = pending;
    }

-- What follows the reads.
unfoldable pub cut_batch : ℕ → List Fields → ℕ → Result Fault Batch
unfolding any_urgent batch_of
cut_batch min_events events reviewed =
    if ltb (length events) reviewed
    then err cursor_ahead
    else any_urgent (drop reviewed events) >>= λ urgent.
        ok (batch_of min_events (length events) reviewed (drop reviewed events) urgent)

unfoldable pub enough : ℕ → Result Fault Bool
enough min_events = if ltb min_events 1 then err min_events_too_small else ok true

-- The position of the first event with the id.
unfoldable pub index_of : String → List Fields → Option ℕ
unfolding has_text
index_of id [] = none
index_of id (event ∷ events) =
    let rest = index_of id events in
    if has_text "id" id event then some 0 else elim rest [ none ↦ none | some i ↦ some (suc i) ]

pub record Report : Type 0 where
  pub is_file : Bool
  pub relative : Option String

unfoldable pub report_of : Report → Result Fault String
report_of r =
    if r.is_file
    then elim r.relative [ none ↦ err report_outside | some path ↦ ok path ]
    else err no_report

abbrev pub review_payload : String → String → String → ℕ → Fields
review_payload through_id now report count = field "version" (int (pos 1)) (
    field "reviewed_count" (int (pos count)) (
      field "last_reviewed_id" (str through_id)
        (field "last_reviewed_at" (str now) (field "last_report" (str report) close))))

unfoldable pub advanced : String → String → String → ℕ → Option ℕ → Result Fault Fields
advanced id now report current none = err (unknown_event id)
advanced id now report current (some index) =
    if ltb (suc index) current
    then err cursor_backwards
    else ok (review_payload id now report (suc index))

module _ (readers : Readers) where
  unfoldable pub pending_batch : Bool → ℕ → LogFile → StateFile → Result Fault Batch
  unfolding enough read_events read_state reviewed_of cut_batch
  pending_batch tolerant min_events log file = enough min_events >>= λ accepted.
      read_events readers tolerant none log >>= λ events. read_state readers log file >>= λ state.
      reviewed_of state >>= λ reviewed. cut_batch min_events events reviewed

  -- the payload, which is also written as the state
  unfoldable pub mark_reviewed :
      Bool → String → Report → String → LogFile → StateFile → Result Fault Fields
  unfolding report_of read_events read_state reviewed_of advanced index_of
  mark_reviewed tolerant id report now log file = report_of report >>= λ path.
      read_events readers tolerant none log >>= λ events. read_state readers log file >>= λ state.
      reviewed_of state >>= λ current. advanced id now path current (index_of id events)
