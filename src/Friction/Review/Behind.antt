-- ===== src/Friction/Review/Behind.antt =====
-- The worlds that recording, reviewing and routing reach. A record appends one line to the log; a file without its
-- last line end, which would join it to the line before, is not considered.
use mathlib.Core.Path.{subst}
use dev_platform.Base.{
  ℕ, suc, ◌≤◌, ◌≡◌, refl, ◌∙◌, sym, ap, Bool, true, false, String, none, some, arith, Bool-cases,
  inl, inr, ltb, ltb→lt, map,
}
use dev_platform.Base.{List, [], ◌∷◌, ◌++◌, drop, length, if◌then◌else◌}
use dev_platform.Base.Json.{pos, Json, int, obj, Fields, set_field, get_or}
use dev_platform.Base.Lookup.{lookup-set_field-other}
use dev_platform.Base.Result.{Result, err, ok, ◌>>=◌, >>=-eq-ok, ok-injective}
use dev_platform.Base.Text.{is_blank}
use dev_platform.Rollout.Identity.{as_int}
use dev_platform.Friction.{
  Fault, Readers, LogFile, missing, garbled, lines, StateFile, absent, stored,
}
use dev_platform.Friction.Events.{
  parse_log_line, parse_log_text, after_line, with_id, with_defaults, recent_events, read_events,
}
use dev_platform.Friction.State.{valid_count, reviewed_of, routes_of, read_state, stored_count}
use dev_platform.Friction.Review.{
  batch_of, any_urgent, Report, mark_reviewed, pending_batch, cut_batch, enough,
}
use dev_platform.Friction.Review.Cursor.{read_state-counted, mark_reviewed-parts, read_state-count}
use dev_platform.Friction.Review.Moves.{index_of-last, written}
use dev_platform.Friction.Routes.{put_route}

pub record World : Type 0 where
  pub log : LogFile
  pub file : StateFile

unfoldable pub with_line : String → LogFile → LogFile
with_line line missing = lines (line ∷ [])
with_line line garbled = garbled
with_line line (lines text) = lines (text ++ (line ∷ []))

-- From no review state: the log grows, a review is marked, a route is written.
pub data IsReached (readers : Readers) (tolerant : Bool) : World → Type 0 where
  started : (log : LogFile) → IsReached readers tolerant (record { log = log; file = absent })
  recorded :
      (w : World) (line : String)
      → IsReached readers tolerant w
      → IsReached readers tolerant (record { log = with_line line w.log; file = w.file })
  marked :
      (w : World) (id : String) (report : Report) (now : String) (payload : Fields)
      → mark_reviewed readers tolerant id report now w.log w.file ≡ ok payload
      → IsReached readers tolerant w
      → IsReached readers tolerant (record { log = w.log; file = stored (obj payload) })
  routed :
      (w : World) (id : String) (route : Json) (payload : Fields)
      → put_route readers w.log id route w.file ≡ ok payload
      → IsReached readers tolerant w
      → IsReached readers tolerant (record { log = w.log; file = stored (obj payload) })

-- The count of the state is not beyond the events of the log.
abbrev pub IsBehind : Readers → Bool → World → Type 0
IsBehind readers tolerant w =
    (events : List Fields) (n : ℕ)
    → read_events readers tolerant none w.log ≡ ok events
    → stored_count w.file ≡ ok n
    → n ≤ length events

longer_tail :
    (event : Fields) (whole part : Result Fault (List Fields)) {es : List Fields}
    → ((fs : List Fields)
        → whole ≡ ok fs
        → (front : List Fields) × (part ≡ ok front) × (length front ≤ length fs))
    → (whole >>= λ events. ok (event ∷ events)) ≡ ok es
    → (front : List Fields) × ((part >>= λ events. ok (event ∷ events)) ≡ ok front)
      × (length front ≤ length es)
longer_tail event whole part {es} shorter h =
    let (fs, w, e) = >>=-eq-ok whole _ h in
    let (front, p, le) = shorter fs w in
    (
      event ∷ front,
      rw p refl,
      subst (λ xs. suc (length front) ≤ length xs) (ok-injective e) (omega arith),
    )

-- One line of the longer text and of its part.
grown_line :
    (readers : Readers) (tolerant blank : Bool) (line : String) (parsed : Result Fault Fields)
    (whole part : Result Fault (List Fields)) {es : List Fields}
    → ((fs : List Fields)
        → whole ≡ ok fs
        → (front : List Fields) × (part ≡ ok front) × (length front ≤ length fs))
    → (if blank then whole else after_line readers tolerant line parsed whole) ≡ ok es
    → (front : List Fields) × ((if blank
          then part
          else after_line readers tolerant line parsed part)
        ≡ ok front)
      × (length front ≤ length es)
unfolding after_line
grown_line readers tolerant true line parsed whole part shorter h = shorter _ h
grown_line readers true false line (err e) whole part shorter h = shorter _ h
grown_line readers false false line (err e) whole part shorter h = cc
grown_line readers true false line (ok event) whole part shorter h =
    longer_tail (with_id readers line event) whole part shorter h
grown_line readers false false line (ok event) whole part shorter h =
    longer_tail (with_id readers line event) whole part shorter h

parse_log_text-append :
    (readers : Readers) (tolerant : Bool) (n : ℕ) (text more : List String) (es : List Fields)
    → parse_log_text readers tolerant n (text ++ more) ≡ ok es
    → (front : List Fields) × (parse_log_text readers tolerant n text ≡ ok front)
      × (length front ≤ length es)
unfolding parse_log_text
parse_log_text-append readers tolerant n [] more es h = ([], refl, omega arith)
parse_log_text-append readers tolerant n (line ∷ text) more es h =
    grown_line readers tolerant (is_blank line) line (parse_log_line readers n line)
      (parse_log_text readers tolerant (suc n) (text ++ more))
      (parse_log_text readers tolerant (suc n) text)
      (parse_log_text-append readers tolerant (suc n) text more) h

-- Without a cutoff all events count.
recent_events-none :
    (readers : Readers) (events : List Fields)
    → recent_events readers none events ≡ ok (map with_defaults events)
unfolding recent_events
recent_events-none readers [] = refl
recent_events-none readers (event ∷ events) = rw (recent_events-none readers events) refl

length-map : (f : Fields → Fields) (xs : List Fields) → length (map f xs) ≡ length xs
length-map f [] = refl
length-map f (x ∷ xs) = ap suc (length-map f xs)

read_lines :
    (readers : Readers) (tolerant : Bool) (text : List String) {events : List Fields}
    → read_events readers tolerant none (lines text) ≡ ok events
    → (es : List Fields) × (parse_log_text readers tolerant 1 text ≡ ok es)
      × (length events ≡ length es)
unfolding read_events
read_lines readers tolerant text h =
    let (es, p, r) = >>=-eq-ok (parse_log_text readers tolerant 1 text) _ h in
    (
      es,
      p,
      ap length (ok-injective (sym r ∙ recent_events-none readers es))
          ∙ length-map with_defaults es,
    )

lines_read :
    (readers : Readers) (tolerant : Bool) (text : List String) {es : List Fields}
    → parse_log_text readers tolerant 1 text ≡ ok es
    → read_events readers tolerant none (lines text) ≡ ok (map with_defaults es)
unfolding read_events
lines_read readers tolerant text {es} p = rw p (recent_events-none readers es)

no_log : (readers : Readers) (tolerant : Bool) → read_events readers tolerant none missing ≡ ok []
unfolding read_events
no_log readers true = refl
no_log readers false = refl

read_events-with_line :
    (readers : Readers) (tolerant : Bool) (line : String) (log : LogFile) (events : List Fields)
    → read_events readers tolerant none (with_line line log) ≡ ok events
    → (front : List Fields) × (read_events readers tolerant none log ≡ ok front)
      × (length front ≤ length events)
unfolding with_line
read_events-with_line readers tolerant line missing events h =
    ([], no_log readers tolerant, omega arith)
read_events-with_line readers tolerant line garbled events h = (events, h, omega arith)
read_events-with_line readers tolerant line (lines text) events h =
    let (es, p, n) = read_lines readers tolerant (text ++ (line ∷ [])) h in
    let (front, q, le) = parse_log_text-append readers tolerant 1 text (line ∷ []) es p in
    (
      map with_defaults front,
      lines_read readers tolerant text q,
      omega (arith, length-map with_defaults front, n, le),
    )

reviewed_of-routes :
    (state : Fields) (v : Json) → reviewed_of (set_field "routes" v state) ≡ reviewed_of state
unfolding reviewed_of
reviewed_of-routes state v =
    ap (λ j. valid_count (as_int (some (get_or (int (pos 0)) j))))
      (lookup-set_field-other "reviewed_count" "routes" v state refl)

-- A route leaves the count as it is.
put_route-count :
    (readers : Readers) (log : LogFile) (id : String) (route : Json) (file : StateFile)
    {payload : Fields}
    → put_route readers log id route file ≡ ok payload
    → reviewed_of payload ≡ stored_count file
unfolding put_route
put_route-count readers log id route file h =
    let (state, s, h1) = >>=-eq-ok (read_state readers log file) _ h in
    let (routes, r, h2) = >>=-eq-ok (routes_of state) _ h1 in
    ap reviewed_of (sym (ok-injective h2))
    ∙ (reviewed_of-routes state _ ∙ read_state-count readers log file s)

IsReached-IsBehind :
    (readers : Readers) (tolerant : Bool) {w : World}
    → IsReached readers tolerant w
    → IsBehind readers tolerant w
unfolding stored_count
IsReached-IsBehind readers tolerant (started log) events n e c = omega (arith, ok-injective c)
IsReached-IsBehind readers tolerant (recorded w line r) events n e c =
    let (front, f, le) = read_events-with_line readers tolerant line w.log events e in
    omega (arith, le, IsReached-IsBehind readers tolerant r front n f c)
IsReached-IsBehind readers tolerant (marked w id report now payload h r) events n e c =
    let (path, all, state, current, index, f, s, k, i, le, p) =
      mark_reviewed-parts readers tolerant id report now w.log w.file h in
    let (fits, last) = index_of-last id all index i in
    let counted = ok-injective (sym c ∙ (ap reviewed_of p ∙ written id now path (suc index))) in
    omega (arith, counted, ap length (ok-injective (sym e ∙ f)), fits)
IsReached-IsBehind readers tolerant (routed w id route payload h r) events n e c =
    IsReached-IsBehind readers tolerant r events n e
      (sym (put_route-count readers w.log id route w.file h) ∙ c)

cut_batch-behind :
    (min_events : ℕ) (events : List Fields) (n : ℕ)
    → n ≤ length events
    → cut_batch min_events events n ≡ (
        any_urgent (drop n events) >>= λ urgent.
        ok (batch_of min_events (length events) n (drop n events) urgent))
unfolding cut_batch
cut_batch-behind min_events events n le = elim (Bool-cases (ltb (length events) n)) [
  | inl e ↦ absurd (omega (arith, ltb→lt (length events) n e, le))
  | inr e ↦ rw e refl
]

-- In each world that recording, reviewing and routing reach from no review state, where the log and the
-- state can be read and the minimum is positive, the count of reviewed events is at most the number of
-- events, and the pending batch is that of the events after it, unless the test of their severities fails.
pub pending_batch-behind :
    (readers : Readers) (tolerant : Bool) (min_events : ℕ) (w : World) {events : List Fields}
    {state : Fields}
    → IsReached readers tolerant w
    → 1 ≤ min_events
    → read_events readers tolerant none w.log ≡ ok events
    → read_state readers w.log w.file ≡ ok state
    → (n : ℕ) × (stored_count w.file ≡ ok n)
      × (n ≤ length events)
      × (pending_batch readers tolerant min_events w.log w.file ≡ (
          any_urgent (drop n events) >>= λ urgent.
          ok (batch_of min_events (length events) n (drop n events) urgent)))
unfolding pending_batch enough
pending_batch-behind readers tolerant min_events w {events} {state} r positive e s =
    let (n, c) = read_state-counted readers w.log w.file s in
    let le = IsReached-IsBehind readers tolerant r events n e c in
    let k = read_state-count readers w.log w.file s ∙ c in
    (n, c, le, rw (not_below positive, e, s, k) (cut_batch-behind min_events events n le))
  where
    not_below : {a : ℕ} → 1 ≤ a → ltb a 1 ≡ false
    not_below h = ground arith
