-- ===== src/Routing/Early/Consistent.antt =====
-- A write that is allowed is never held against the task later.
use dev_platform.Base.{◌≡◌, refl, String, Bool, true, false, Option, none, some, if◌then◌else◌}
use dev_platform.Base.Json.{Json, Fields}
use dev_platform.Base.Result.{Result, err, ok, >>=-eq-ok}
use dev_platform.Routing.{Refusal, reroute_required, write_refused, Route}
use dev_platform.Routing.Early.{
  Content, is_lifecycle_path, has_real_delegation, unless_real, planned, routed_content,
  recorded_content, early_routing_gate, write_planned, write_routed, write_recorded,
  check_task_write,
}

real_only : (b : Bool) {u : Unit} → (if b then ok tt else err write_refused) ≡ ok u → b ≡ true
real_only true h = refl
real_only false h = cc

module _ (same : Json → Json → Bool) (content : Result Refusal Content) where
  planned_agree :
      (route : Route) (plan : Fields) (retained : Bool) {u : Unit}
      → write_planned route retained ≡ ok u
      → planned same route plan content retained ≡ ok (some route)
  unfolding write_planned planned unless_real
  planned_agree route plan true h = refl
  planned_agree route plan false h =
      let (real, e, k) = >>=-eq-ok (has_real_delegation route) _ h in rw (e, real_only real k) refl

  routed_agree :
      (route : Route) (plan : Option Fields) {u : Unit}
      → write_routed route plan ≡ ok u
      → routed_content same route content plan ≡ ok (some route)
  unfolding write_routed routed_content
  routed_agree route (some plan) h = planned_agree route plan _ h
  routed_agree route none h = executed route.execution h
    where
      executed :
          (execution : Option Fields) {u : Unit}
          → (elim execution as (λ e. Result Refusal Unit) [
            | none ↦ err reroute_required
            | some e ↦ ok tt
          ])
            ≡ ok u
          → (elim execution as (λ e. Result Refusal (Option Route)) [
            | none ↦ err reroute_required
            | some e ↦ ok (some route)
          ])
            ≡ ok (some route)
      executed none k = cc
      executed (some e) k = refl

  recorded_agree :
      (recorded : Option (Result Refusal Route)) {u : Unit}
      → write_recorded recorded ≡ ok u
      → (route : Route) × (recorded_content same recorded content ≡ ok (some route))
  unfolding write_recorded recorded_content
  recorded_agree none h = cc
  recorded_agree (some reading) h =
      let (route, e, k) = >>=-eq-ok reading _ h in
      (route, rw e (routed_agree route route.execution_plan k))

  -- Where a write of a path that is not lifecycle state is allowed in an active managed task, the early
  -- gate accepts the same record with any content of the worktree.
  pub check_task_write-early :
      (path change : String) (recorded : Option (Result Refusal Route))
      → is_lifecycle_path path change ≡ false
      → check_task_write true true path change recorded ≡ ok tt
      → (route : Route) × (early_routing_gate same true recorded content ≡ ok (some route))
  unfolding check_task_write early_routing_gate
  check_task_write-early path change recorded e h = recorded_agree recorded (rw e at h)
