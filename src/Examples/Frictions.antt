-- ===== src/Examples/Frictions.antt =====
-- A log of two events, of which the second is severe, reviewed at once, and a world that records, reviews and routes.
use dev_platform.Base.{
  ℕ, ◌≤◌, ◌≡◌, refl, true, false, String, Option, none, some, ◌==◌, arith, List, [], ◌∷◌, any, drop,
  length, if◌then◌else◌,
}
use dev_platform.Base.Json.{Json, str, obj, Fields, close, field}
use dev_platform.Base.Result.{ok, ◌>>=◌}
use dev_platform.Rollout.Identity.{has_text}
use dev_platform.Friction.{Readers, LogFile, lines, absent, stored}
use dev_platform.Friction.Events.{read_events, with_defaults}
use dev_platform.Friction.State.{checkpoints_of, read_state, stored_count, with_routes}
use dev_platform.Friction.Review.{
  Report, report_of, batch_of, any_urgent, review_payload, mark_reviewed, pending_batch,
}
use dev_platform.Friction.Review.Moves.{View, IsView, IsReviewed, mark_reviewed-IsReviewed}
use dev_platform.Friction.Review.Behind.{World, IsReached, started, marked, pending_batch-behind}
use dev_platform.Friction.Review.Emptied.{mark_reviewed-empties}
use dev_platform.Friction.Routes.{pending_routes}
use dev_platform.Friction.Routes.Forgotten.{mark_reviewed-forgets}

abbrev first_event : Fields
first_event = field "id" (str "e1") (field "at" (str "t1") close)

abbrev second_event : Fields
second_event = field "id" (str "e2") (field "at" (str "t2") (field "severity" (str "high") close))

abbrev loads_line : String → Option Json
loads_line line = if line == "one" then some (obj first_event) else some (obj second_event)

abbrev readers : Readers
readers = record {
  loads = loads_line;
  instant = λ j. some 5;
  digest = λ s. s;
  positional = λ s. none;
}

abbrev log_file : LogFile
log_file = lines ("one" ∷ "two" ∷ [])

abbrev shown_events : List Fields
shown_events = with_defaults first_event ∷ with_defaults second_event ∷ []

abbrev report_file : Report
report_file = record { is_file = true; relative = some "reports/r.md" }

abbrev written_payload : Fields
written_payload = review_payload "e2" "now" "reports/r.md" 2

events_read : read_events readers false none log_file ≡ ok shown_events
unfolding read_events
events_read = refl

review_accepted :
    mark_reviewed readers false "e2" report_file "now" log_file absent ≡ ok written_payload
unfolding mark_reviewed
review_accepted = refl

state_read :
    read_state readers log_file (stored (obj written_payload))
    ≡ ok (with_routes written_payload close)
unfolding read_state
state_read = refl

batch_shown : pending_batch readers false 5 log_file absent ≡ ok (batch_of 5 2 0 shown_events true)
unfolding pending_batch
batch_shown = refl

report_found : report_of report_file ≡ ok "reports/r.md"
unfolding report_of
report_found = refl

abbrev unreviewed : View
unreviewed = record { reviewed = []; pending = shown_events }

nothing_counted : stored_count absent ≡ ok 0
unfolding stored_count
nothing_counted = refl

mark_reviewed-IsReviewed_example :
    (w : View) × IsView readers false log_file (stored (obj written_payload)) w
    × IsReviewed "e2" unreviewed w
mark_reviewed-IsReviewed_example =
    mark_reviewed-IsReviewed readers false "e2" report_file "now" log_file absent unreviewed
      (events_read, nothing_counted) review_accepted

abbrev reviewed_world : World
reviewed_world = record { log = log_file; file = stored (obj written_payload) }

reviewed_world-IsReached : IsReached readers false reviewed_world
reviewed_world-IsReached =
    marked (record { log = log_file; file = absent }) "e2" report_file "now" written_payload
      review_accepted (started log_file)

pending_batch-behind_example :
    (n : ℕ) × (stored_count reviewed_world.file ≡ ok n)
    × (n ≤ length shown_events)
    × (pending_batch readers false 5 log_file reviewed_world.file ≡ (
        any_urgent (drop n shown_events) >>= λ urgent.
        ok (batch_of 5 (length shown_events) n (drop n shown_events) urgent)))
pending_batch-behind_example =
    pending_batch-behind readers false 5 reviewed_world reviewed_world-IsReached (omega arith)
      events_read state_read

last_alone : any (has_text "id" "e2") (with_defaults first_event ∷ []) ≡ false
unfolding has_text with_defaults
last_alone = refl

id_named : (batch_of 5 2 0 shown_events true).through_id ≡ some (str "e2")
unfolding batch_of with_defaults
id_named = refl

mark_reviewed-empties_example :
    (payload : Fields) × (mark_reviewed readers false "e2" report_file "now" log_file absent
      ≡ ok payload)
    × (pending_batch readers false 5 log_file (stored (obj payload)) ≡ ok (batch_of 5 2 2 [] false))
mark_reviewed-empties_example =
    mark_reviewed-empties readers false 5 "e2" report_file "reports/r.md" "now" log_file absent
      (with_defaults first_event ∷ []) (with_defaults second_event) events_read last_alone
      batch_shown id_named report_found

mark_reviewed-forgets_example :
    (pending_routes (λ j. "e1") readers false log_file (stored (obj written_payload))
      ≡ read_events readers false none log_file)
    × ((read_state readers log_file (stored (obj written_payload)) >>= checkpoints_of) ≡ ok close)
mark_reviewed-forgets_example =
    mark_reviewed-forgets (λ j. "e1") readers false "e2" report_file "now" log_file absent
      review_accepted
