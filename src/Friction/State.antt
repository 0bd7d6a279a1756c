-- ===== src/Friction/State.antt =====
-- `resolve_positional_id` and `read_state`.
use dev_platform.Base.{ℕ, zero, suc, String, Option, none, some}
use dev_platform.Base.{List, [], ◌∷◌, if◌then◌else◌}
use dev_platform.Base.Json.{
  ℤ, pos, negsuc, Json, int, obj, Fields, close, field, lookup, set_default, set_field, get_or,
}
use dev_platform.Base.Result.{Result, err, ok, ◌>>=◌}
use dev_platform.Base.Text.{is_blank}
use dev_platform.Rollout.Identity.{as_int}
use dev_platform.Friction.{
  Fault, unreadable_log, unresolved, blank_position, invalid_position, has_own_id, invalid_state,
  invalid_count, invalid_routes, invalid_checkpoints, duplicate_route, uncaught, Readers, LogFile,
  missing, garbled, lines, StateFile, absent, broken, stored,
}
use dev_platform.Friction.Events.{legacy_content_id, parse_log_line}

-- `lines[number - 1]`, for a number from one
unfoldable pub line_at : ℕ → List String → Option String
line_at zero text = none
line_at (suc n) [] = none
line_at (suc zero) (line ∷ text) = some line
line_at (suc (suc n)) (line ∷ text) = line_at (suc n) text

unfoldable pub without_own_id : String → String → Option Json → Result Fault String
without_own_id id content none = ok content
without_own_id id content (some own) = err (has_own_id id)

unfoldable pub with_own_line : String → String → Result Fault Fields → Result Fault String
unfolding without_own_id lookup
with_own_line id content (err e) = err (invalid_position id)
with_own_line id content (ok event) = without_own_id id content (lookup "id" event)

-- `isinstance(reviewed, int)` and not negative
unfoldable pub valid_count : Option ℤ → Result Fault ℕ
valid_count none = err invalid_count
valid_count (some (pos n)) = ok n
valid_count (some (negsuc n)) = err invalid_count

unfoldable pub require_dict : Fault → Json → Result Fault Fields
require_dict fault (obj fs) = ok fs
require_dict fault j = err fault

-- `translated[resolved] = route`, for a key that is not there
unfoldable pub add_route : String → Json → Fields → Option Json → Result Fault Fields
unfolding set_field
add_route id route translated none = ok (set_field id route translated)
add_route id route translated (some other) = err (duplicate_route id)

-- `payload["routes"]`, which a `setdefault` has made present
unfoldable pub routes_of : Fields → Result Fault Fields
unfolding require_dict get_or lookup
routes_of payload = require_dict invalid_routes (get_or (obj close) (lookup "routes" payload))

-- The tests of the payload, with the count.
unfoldable pub reviewed_of : Fields → Result Fault ℕ
unfolding valid_count as_int get_or lookup
reviewed_of payload =
    valid_count (as_int (some (get_or (int (pos 0)) (lookup "reviewed_count" payload))))

unfoldable pub checkpoints_of : Fields → Result Fault Fields
unfolding require_dict get_or lookup
checkpoints_of payload =
    require_dict invalid_checkpoints (get_or (obj close) (lookup "checkpoints" payload))

abbrev pub fresh_state : Fields
fresh_state = field "version" (int (pos 2)) (
    field "reviewed_count" (int (pos 0))
      (field "routes" (obj close) (field "checkpoints" (obj close) close)))

unfoldable pub with_routes : Fields → Fields → Fields
unfolding set_default set_field
with_routes payload translated =
    let versioned = set_default "version" (int (pos 2)) payload in
    let routed = set_field "routes" (obj translated) versioned in
    set_default "checkpoints" (obj close) routed

module _ (readers : Readers) where
  unfoldable pub at_line : String → ℕ → Option String → Result Fault String
  unfolding is_blank with_own_line parse_log_line legacy_content_id
  at_line id n none = err (unresolved id)
  at_line id n (some line) =
      if is_blank line
      then err (blank_position id)
      else with_own_line id (legacy_content_id readers line) (parse_log_line readers n line)

  unfoldable pub resolve_number : LogFile → String → Option ℕ → Result Fault String
  unfolding at_line line_at
  resolve_number log id none = ok id
  resolve_number missing id (some n) = err unreadable_log
  resolve_number garbled id (some n) = err unreadable_log
  resolve_number (lines text) id (some n) = at_line id n (line_at n text)

  unfoldable pub resolve_positional_id : LogFile → String → Result Fault String
  unfolding resolve_number
  resolve_positional_id log id = resolve_number log id (readers.positional id)

  -- The loop over the routes.
  unfoldable pub translate : LogFile → Fields → Fields → Result Fault Fields
  unfolding resolve_positional_id add_route lookup
  translate log close translated = ok translated
  translate log (field key route rest) translated = resolve_positional_id log key >>= λ id.
      add_route id route translated (lookup id translated) >>= λ grown. translate log rest grown

  unfoldable pub checked_payload : LogFile → Fields → Result Fault Fields
  unfolding reviewed_of routes_of checkpoints_of translate with_routes
  checked_payload log payload = reviewed_of payload >>= λ reviewed. routes_of payload >>= λ routes.
      checkpoints_of payload >>= λ checkpoints.
      translate log routes close >>= λ translated. ok (with_routes payload translated)

  unfoldable pub read_state : LogFile → StateFile → Result Fault Fields
  unfolding checked_payload
  read_state log absent = ok fresh_state
  read_state log broken = err invalid_state
  read_state log (stored (obj payload)) = checked_payload log payload
  read_state log (stored j) = err uncaught

-- The count in the state's file.
unfoldable pub stored_count : StateFile → Result Fault ℕ
unfolding reviewed_of
stored_count absent = ok 0
stored_count broken = err invalid_state
stored_count (stored (obj payload)) = reviewed_of payload
stored_count (stored j) = err uncaught
