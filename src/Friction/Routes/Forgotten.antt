-- ===== src/Friction/Routes/Forgotten.antt =====
-- What a review leaves of the state that routing keeps in the same file.
use dev_platform.Base.{ℕ, suc, ◌≡◌, refl, ◌∙◌, sym, ap, Bool, String, none}
use dev_platform.Base.{List, [], ◌∷◌}
use dev_platform.Base.Json.{Json, obj, Fields, close}
use dev_platform.Base.Result.{ok, ◌>>=◌}
use dev_platform.Friction.{Readers, LogFile, StateFile, stored}
use dev_platform.Friction.Events.{read_events}
use dev_platform.Friction.State.{checkpoints_of, with_routes, read_state}
use dev_platform.Friction.Review.{Report, review_payload, mark_reviewed}
use dev_platform.Friction.Review.Cursor.{mark_reviewed-parts}
use dev_platform.Friction.Routes.{unrouted, pending_routes}

unrouted-none :
    (text_of : Json → String) (events : List Fields) → unrouted text_of close events ≡ ok events
unfolding unrouted
unrouted-none text_of [] = refl
unrouted-none text_of (event ∷ events) = rw (unrouted-none text_of events) refl

pending_routes-payload :
    (text_of : Json → String) (readers : Readers) (tolerant : Bool) (log : LogFile)
    (id now path : String) (count : ℕ) {events : List Fields}
    → read_events readers tolerant none log ≡ ok events
    → pending_routes text_of readers tolerant log (stored (obj (review_payload id now path count)))
      ≡ ok events
unfolding pending_routes
pending_routes-payload text_of readers tolerant log id now path count {events} e =
    rw e (unrouted-none text_of events)

left_state :
    (readers : Readers) (log : LogFile) (id now path : String) (count : ℕ)
    → read_state readers log (stored (obj (review_payload id now path count)))
      ≡ ok (with_routes (review_payload id now path count) close)
unfolding read_state
left_state readers log id now path count = refl

left_checkpoints :
    (id now path : String) (count : ℕ)
    → checkpoints_of (with_routes (review_payload id now path count) close) ≡ ok close
unfolding checkpoints_of with_routes
left_checkpoints id now path count = refl

-- After an accepted mark, the events to be routed are all events of the log, also those that were routed or
-- withheld before, and the state has no checkpoint.
pub mark_reviewed-forgets :
    (text_of : Json → String) (readers : Readers) (tolerant : Bool) (id : String) (report : Report)
    (now : String) (log : LogFile) (file : StateFile) {payload : Fields}
    → mark_reviewed readers tolerant id report now log file ≡ ok payload
    → (pending_routes text_of readers tolerant log (stored (obj payload))
        ≡ read_events readers tolerant none log)
      × ((read_state readers log (stored (obj payload)) >>= checkpoints_of) ≡ ok close)
mark_reviewed-forgets text_of readers tolerant id report now log file h =
    let (path, events, state, current, index, e, s, k, i, le, p) =
      mark_reviewed-parts readers tolerant id report now log file h in
    (
      ap (λ q. pending_routes text_of readers tolerant log (stored (obj q))) p
          ∙ (pending_routes-payload text_of readers tolerant log id now path (suc index) e ∙ sym e),
      ap (λ q. read_state readers log (stored (obj q)) >>= checkpoints_of) p
          ∙ (ap (λ r. r >>= checkpoints_of) (left_state readers log id now path (suc index))
              ∙ left_checkpoints id now path (suc index)),
    )
