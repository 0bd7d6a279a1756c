-- ===== src/MachinePool/Acquire.antt =====
-- `_create_ticket` and `_acquire` of `template/scripts/machine_pool.py`. What a pass of a loop sees of the
-- machine, which other processes change between passes, is an argument: one entry of a list for each
-- pass. `waiting` means that the list ended before the loop did. The progress lines are left out.
pub mod Bounded
pub mod Passes
pub mod Outcomes
use dev_platform.Base.{
  ℕ, ◌-◌, String, Bool, true, false, not, ◌||◌, ◌&&◌, ◌==◌, Option, none, some, ltb, leb,
}
use dev_platform.Base.{List, [], ◌∷◌, keep, contains, if◌then◌else◌}
use dev_platform.Base.Result.{Result, ok, err}
use dev_platform.MachinePool.Slots.{close_all}
use dev_platform.MachinePool.Queue.{
  Ticket, PoolError, ticket_disappeared, slot_unusable, unmeasurable,
}
use dev_platform.MachinePool.Queue.{wait_timed_out, Order, scan_queue, is_first, Machine, Admission}
use dev_platform.MachinePool.Queue.{
  admitted, being_admitted, earlier_ranked, no_tokens, admit_if_head,
}

-- Load and memory in a unit that the limits share.
pub record PoolConfig : Type 0 where
  pub tokens : ℕ
  pub wait_timeout_seconds : ℕ
  pub max_load_per_cpu : ℕ
  pub min_available_memory_mb : ℕ

pub data Pressure : Type 0 where
  normal warn critical : Pressure

pub data Blocker : Type 0 where
  load memory : Blocker
  pressure : Pressure → Blocker

pub record Measured : Type 0 where
  pub load_per_cpu : ℕ
  pub available_memory_mb : ℕ
  pub memory_pressure : Option Pressure

pressure_blocker : Option Pressure → Option Blocker
pressure_blocker none = none
pressure_blocker (some normal) = none
pressure_blocker (some warn) = some (pressure warn)
pressure_blocker (some critical) = some (pressure critical)

unfoldable pub admission_blocker : PoolConfig → Measured → Option Blocker
unfolding pressure_blocker
admission_blocker config m =
    if ltb config.max_load_per_cpu m.load_per_cpu
    then some load
    else if ltb m.available_memory_mb config.min_available_memory_mb
    then some memory
    else pressure_blocker m.memory_pressure

-- A pass of the loop that queues the ticket: the clock before it and after, and whether the admission
-- lock was got.
pub record Attempt : Type 0 where
  pub before : ℕ
  pub got_lock : Bool
  pub after : ℕ

pub data Queueing : Type 0 where
  queued : Bool → Queueing
  timed_out waiting : Queueing

unfoldable pub late : PoolConfig → ℕ → ℕ → Bool
late config started now = leb config.wait_timeout_seconds (now - started)

-- `queued` tells whether the loop had to wait for the admission lock.
unfoldable pub create_ticket : PoolConfig → ℕ → Bool → List Attempt → Queueing
unfolding late
create_ticket config started waited [] = waiting
create_ticket config started waited (a ∷ as') =
    let rest = create_ticket config started true as' in
    if waited && late config started a.before
    then timed_out
    else if a.got_lock
    then queued waited
    else if late config started a.after
    then timed_out
    else rest

-- A pass of the loop that waits in the queue: the clock, the queue as it is scanned, the measurements
-- (`none` if one fails), the admission lock and the pool as it is under that lock, whether the metadata
-- can be written, and the clock again.
pub record Poll : Type 0 where
  pub before : ℕ
  pub seen : List Ticket
  pub measured : Option Measured
  pub got_lock : Bool
  pub machine : Machine
  pub writable : Bool
  pub after : ℕ

pub data Outcome : Type 0 where
  acquired : List ℕ → Outcome
  raised : PoolError → Outcome
  waiting : Outcome

-- What one pass decides: to return the descriptors, to raise, or to wait.
pub data Pass : Type 0 where
  returns : List ℕ → Machine → Pass
  raises : PoolError → Machine → Pass
  waits : Machine → Pass

unfoldable pub finish : Bool → Result PoolError Admission × Machine → Pass
finish writable (err e, m) = raises e m
finish true (ok (admitted fds), m) = returns fds m
finish false (ok (admitted fds), m) =
    raises slot_unusable (record m { slots = close_all fds m.slots })
finish writable (ok being_admitted, m) = waits m
finish writable (ok earlier_ranked, m) = waits m
finish writable (ok no_tokens, m) = waits m

-- The end of a pass: `rest` are the later ones.
unfoldable pub after_pass : Bool → Pass → (Machine → Outcome × Machine) → Outcome × Machine
after_pass too_late (returns fds m) rest = (acquired fds, m)
after_pass too_late (raises e m) rest = (raised e, m)
after_pass too_late (waits m) rest = if too_late then (raised wait_timed_out, m) else rest m

module _ (ticket_re : String → Option Order) (config : PoolConfig) (own : String)
    (run weight : ℕ) where
  unfoldable pub head_pass : Poll → Option Measured → Pass
  unfolding finish admission_blocker admit_if_head
  head_pass p none = raises unmeasurable p.machine
  head_pass p (some m) = elim (admission_blocker config m) [
    | some reason ↦ waits p.machine
    | none ↦ finish p.writable (admit_if_head ticket_re p.got_lock own run weight p.machine)
  ]

  -- A waiter that is not the head measures on its first pass only.
  unfoldable pub behind_pass : Bool → Poll → Option Measured → Pass
  behind_pass true p none = raises unmeasurable p.machine
  behind_pass true p (some m) = waits p.machine
  behind_pass false p m = waits p.machine

  unfoldable pub after_seen : Bool → Poll → Result PoolError (List String × List Ticket) → Pass
  unfolding head_pass behind_pass is_first
  after_seen first p (err e) = raises e p.machine
  after_seen first p (ok (live, left)) =
      if not (contains live own)
      then raises ticket_disappeared p.machine
      else if is_first own live
      then head_pass p p.measured
      else behind_pass first p p.measured

  unfoldable pub pass : Bool → Poll → Pass
  unfolding after_seen scan_queue
  pass first p = after_seen first p (scan_queue ticket_re own p.seen)

  -- The loop; `waited` tells whether an earlier pass, or the queueing, has waited.
  unfoldable pub acquire_loop : ℕ → Bool → Bool → Machine → List Poll → Outcome × Machine
  unfolding late pass after_pass
  acquire_loop started waited first m [] = (waiting, m)
  acquire_loop started waited first m (p ∷ ps) =
      if waited && late config started p.before
      then (raised wait_timed_out, p.machine)
      else after_pass (late config started p.after) (pass first p)
          (λ m'. acquire_loop started true false m' ps)

  -- `ticket.release()`, which every way out of the loop makes
  unfoldable pub release : Outcome × Machine → Outcome × Machine
  release (o, m) = (o, record m { tickets = keep (λ t. not (t.name == own)) m.tickets })

  start_loop : ℕ → Machine → List Poll → Queueing → Outcome × Machine
  unfolding acquire_loop release
  start_loop started m ps (queued waited) = release (acquire_loop started waited true m ps)
  start_loop started m ps timed_out = (raised wait_timed_out, m)
  start_loop started m ps waiting = (Outcome.waiting, m)

  unfoldable pub acquire : ℕ → List Attempt → Machine → List Poll → Outcome × Machine
  unfolding start_loop create_ticket
  acquire started attempts m ps =
      start_loop started m ps (create_ticket config started false attempts)
