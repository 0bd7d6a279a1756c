-- ===== src/Friction/Events.antt =====
-- `legacy_content_id`, `_parse_log_line`, `_parse_log_text`, `read_events` and `unaccepted_gaps`.
use dev_platform.Base.{ℕ, suc, String, ◌<>◌, Bool, true, false, leb, Option, none, some}
use dev_platform.Base.{List, [], ◌∷◌, if◌then◌else◌}
use dev_platform.Base.Json.{
  Json, null, str, arr, obj, item, end, Fields, close, field, lookup, set_default, get_or,
}
use dev_platform.Base.Result.{Result, err, ok, ◌>>=◌}
use dev_platform.Base.Text.{strip, is_blank}
use dev_platform.Friction.{
  Fault, invalid_json, not_object, no_timestamp, unreadable_log, uncaught, Readers, LogFile,
  missing, garbled, lines,
}

-- the clause that reads `event["at"]`
unfoldable pub at_of : (Json → Option ℕ) → Fields → Option ℕ
unfolding lookup
at_of instant event = elim (lookup "at" event) [ none ↦ none | some j ↦ instant j ]

timed : ℕ → Fields → Option ℕ → Result Fault Fields
timed n event none = err (no_timestamp n)
timed n event (some at) = ok event

unfoldable pub parsed_value : (Json → Option ℕ) → ℕ → Option Json → Result Fault Fields
unfolding timed at_of
parsed_value instant n none = err (invalid_json n)
parsed_value instant n (some (obj event)) = timed n event (at_of instant event)
parsed_value instant n (some j) = err (not_object n)

-- `_unknown_run_provenance`
abbrev pub unknown_run_provenance : String → Json
unknown_run_provenance role = obj (
    field "source_issue" null (
      field "change" null
        (field "role" (str role) (field "supervisor" null (field "participant" null close)))))

-- The `setdefault` calls of `read_events`.
unfoldable pub with_defaults : Fields → Fields
unfolding set_default get_or lookup
with_defaults event =
    let graded = set_default "severity" (str "medium") event in
    let triggers = arr (item (get_or (str "legacy") (lookup "category" graded)) end) in
    let triggered = set_default "triggers" triggers graded in
    let located = set_default "run" (unknown_run_provenance "unknown") triggered in
    set_default "context" null (set_default "classification" (str "process-friction") located)

-- whether the event counts, for a cutoff and its instant
unfoldable pub is_recent : Option ℕ → Option ℕ → Result Fault Bool
is_recent none at = ok true
is_recent (some cutoff) none = err uncaught
is_recent (some cutoff) (some at) = ok (leb cutoff at)

unfoldable pub kept_event : Fields → List Fields → Bool → List Fields
kept_event event events true = event ∷ events
kept_event event events false = events

module _ (readers : Readers) where
  unfoldable pub legacy_content_id : String → String
  unfolding strip
  legacy_content_id line = "legacy-" <> readers.digest (strip line)

  unfoldable pub parse_log_line : ℕ → String → Result Fault Fields
  unfolding parsed_value
  parse_log_line n line = parsed_value readers.instant n (readers.loads line)

  -- `if "id" not in event: event["id"] = ...`
  unfoldable pub with_id : String → Fields → Fields
  unfolding set_default legacy_content_id
  with_id line event = set_default "id" (str (legacy_content_id line)) event

  -- One pass of the loop, on the events of the later lines.
  unfoldable pub after_line :
      Bool → String → Result Fault Fields → Result Fault (List Fields) → Result Fault (List Fields)
  unfolding with_id
  after_line true line (err e) rest = rest
  after_line false line (err e) rest = err e
  after_line tolerant line (ok event) rest = rest >>= λ events. ok (with_id line event ∷ events)

  unfoldable pub parse_log_text : Bool → ℕ → List String → Result Fault (List Fields)
  unfolding is_blank parse_log_line after_line
  parse_log_text tolerant n [] = ok []
  parse_log_text tolerant n (line ∷ rest) =
      let later = parse_log_text tolerant (suc n) rest in
      if is_blank line then later else after_line tolerant line (parse_log_line n line) later

  -- The loop of `read_events`.
  unfoldable pub recent_events : Option ℕ → List Fields → Result Fault (List Fields)
  unfolding with_defaults is_recent at_of kept_event
  recent_events cutoff [] = ok []
  recent_events cutoff (event ∷ events) =
      is_recent cutoff (at_of readers.instant (with_defaults event)) >>= λ recent.
      recent_events cutoff events >>= λ later. ok (kept_event (with_defaults event) later recent)

  unfoldable pub read_events : Bool → Option ℕ → LogFile → Result Fault (List Fields)
  unfolding parse_log_text recent_events
  read_events tolerant cutoff missing = ok []
  read_events true cutoff garbled = ok []
  read_events false cutoff garbled = err unreadable_log
  read_events tolerant cutoff (lines text) =
      parse_log_text tolerant 1 text >>= λ events. recent_events cutoff events
