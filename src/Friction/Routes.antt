-- ===== src/Friction/Routes.antt =====
-- The events that `route_pending` routes, and the state that `route_event` writes for one of them. `text_of` is `str`.
pub mod Forgotten
use dev_platform.Base.{String, Bool, true, false, not, ◌||◌, Option, none, some, ◌==◌}
use dev_platform.Base.{List, [], ◌∷◌, if◌then◌else◌}
use dev_platform.Base.Json.{Json, null, str, obj, Fields, lookup, set_field, get_or}
use dev_platform.Base.Result.{Result, err, ok, ◌>>=◌}
use dev_platform.Friction.{Fault, uncaught, Readers, LogFile, StateFile}
use dev_platform.Friction.Events.{read_events}
use dev_platform.Friction.State.{read_state, routes_of}

-- `.get("status") not in ("routed", "withheld")`
unfoldable pub is_unsettled : Option Json → Bool
is_unsettled (some (str status)) = not (status == "routed" || status == "withheld")
is_unsettled _ = true

-- `routes.get(id, {})`, which is to be a dict
unfoldable pub is_unrouted : Option Json → Result Fault Bool
unfolding is_unsettled lookup
is_unrouted none = ok true
is_unrouted (some (obj route)) = ok (is_unsettled (lookup "status" route))
is_unrouted (some j) = err uncaught

unfoldable pub with_unsettled : Fields → Bool → List Fields → List Fields
with_unsettled event true events = event ∷ events
with_unsettled event false events = events

module _ (text_of : Json → String) where
  -- `str(event.get("id"))`
  unfoldable pub id_text : Fields → String
  unfolding get_or lookup
  id_text event = text_of (get_or null (lookup "id" event))

  unfoldable pub unrouted : Fields → List Fields → Result Fault (List Fields)
  unfolding is_unrouted id_text with_unsettled lookup
  unrouted routes [] = ok []
  unrouted routes (event ∷ events) = is_unrouted (lookup (id_text event) routes) >>= λ unsettled.
      unrouted routes events >>= λ later. ok (with_unsettled event unsettled later)

  -- The events that `route_pending` passes to `route_event`.
  unfoldable pub pending_routes : Readers → Bool → LogFile → StateFile → Result Fault (List Fields)
  unfolding read_state routes_of read_events unrouted
  pending_routes readers tolerant log file = read_state readers log file >>= λ state.
      routes_of state >>= λ routes.
      read_events readers tolerant none log >>= λ events. unrouted routes events

-- `state["routes"][event_id] = route`, on the state read
unfoldable pub put_route : Readers → LogFile → String → Json → StateFile → Result Fault Fields
unfolding read_state routes_of set_field
put_route readers log id route file = read_state readers log file >>= λ state.
    routes_of state >>= λ routes. ok (set_field "routes" (obj (set_field id route routes)) state)
