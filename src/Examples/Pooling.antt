-- ===== src/Examples/Pooling.antt =====
-- A pool of three slots, and a queue with the ticket of a run that is killed and of one that waits.
use dev_platform.Base.{
  String, true, false, ◌≡◌, refl, ◌==◌, Option, none, some, List, [], ◌∷◌, All, inl, inr, arith,
  if◌then◌else◌,
}
use dev_platform.MachinePool.Slots.{Slot, free, locked, try_take_slots}
use dev_platform.MachinePool.Slots.AllOrNothing.{
  Restores, Gained, is_held, try_take_slots-Restores, try_take_slots-Gained, try_take_slots_enough,
}
use dev_platform.MachinePool.Queue.{Order, Machine, admit_if_head}
use dev_platform.MachinePool.Queue.Head.{FollowsOwn, admit_if_head_first}
use dev_platform.MachinePool.Queue.Kept.{Kept, admit_if_head-Kept}
use dev_platform.MachinePool.Acquire.{PoolConfig, Measured, Poll, acquire_loop, normal}
use dev_platform.MachinePool.Acquire.Bounded.{is_waiting, acquire_loop_ends}
use dev_platform.MachinePool.Acquire.Outcomes.{
  AdmittedIn, LoopKept, acquire_loop_admitted, acquire_loop-LoopKept,
}

abbrev three_slots : List Slot
three_slots = free ∷ locked 4 ∷ free ∷ []

abbrev order_of : String → Option Order
order_of name = if name == "0-3" then some (0, 3) else if name == "1-7" then some (1, 7) else none

abbrev pool : Machine
pool = record {
  slots = three_slots;
  tickets = record { name = "0-3"; alive = false } ∷ record { name = "1-7"; alive = true } ∷ [];
}

abbrev limits : PoolConfig
limits = record {
  tokens = 3;
  wait_timeout_seconds = 600;
  max_load_per_cpu = 2;
  min_available_memory_mb = 1024;
}

abbrev quiet : Measured
quiet = record { load_per_cpu = 1; available_memory_mb = 4096; memory_pressure = some normal }

abbrev polls : List Poll
polls =
    record {
      before = 10;
      seen = pool.tickets;
      measured = some quiet;
      got_lock = false;
      machine = pool;
      writable = true;
      after = 15;
    }
    ∷ record {
      before = 20;
      seen = pool.tickets;
      measured = some quiet;
      got_lock = true;
      machine = pool;
      writable = true;
      after = 700;
    }
    ∷ []

try_take_slots-Restores_example : Restores three_slots (try_take_slots 9 2 three_slots)
try_take_slots-Restores_example = try_take_slots-Restores 9 2 three_slots

try_take_slots-Gained_example : Gained 9 2 9 [] three_slots (try_take_slots 9 2 three_slots)
try_take_slots-Gained_example = try_take_slots-Gained 9 2 9 three_slots

try_take_slots_enough_example : is_held (try_take_slots 9 2 three_slots).0 ≡ true
try_take_slots_enough_example = try_take_slots_enough 9 2 three_slots refl (omega arith)

admit_if_head_first_example : All (FollowsOwn order_of "1-7" (1, 7)) pool.tickets
unfolding admit_if_head
admit_if_head_first_example =
    admit_if_head_first order_of true "1-7" 9 2 pool (1, 7) (0 ∷ 2 ∷ []) refl refl

admit_if_head-Kept_example : Kept 2 three_slots (admit_if_head order_of true "1-7" 9 2 pool)
admit_if_head-Kept_example = admit_if_head-Kept order_of "1-7" 9 2 true pool

acquire_loop_ends_example :
    is_waiting (acquire_loop order_of limits "1-7" 9 3 0 false true pool polls).0 ≡ false
acquire_loop_ends_example =
    acquire_loop_ends order_of limits "1-7" 9 3 0 false true pool polls (inr (inl (omega arith)))

acquire_loop_admitted_example : AdmittedIn order_of limits "1-7" 9 2 0 false (0 ∷ 2 ∷ []) polls
unfolding acquire_loop
acquire_loop_admitted_example =
    acquire_loop_admitted order_of limits "1-7" 9 2 0 false true pool polls (0 ∷ 2 ∷ []) refl

acquire_loop-LoopKept_example :
    LoopKept order_of limits "1-7" 9 2 polls
      (acquire_loop order_of limits "1-7" 9 2 0 false true pool polls)
acquire_loop-LoopKept_example =
    acquire_loop-LoopKept order_of limits "1-7" 9 2 0 false true pool polls
