-- ===== src/MachinePool/Queue.antt =====
-- The queue of `template/scripts/machine_pool.py`: a directory of ticket files, each locked by its
-- waiter while that lives. `ticket_re` reads rank and arrival time from a file name, as the regular
-- expression of the source does, and gives `none` on a name that is no ticket.
pub mod Head
pub mod Kept
use dev_platform.Base.{
  ℕ, String, Bool, true, false, ◌||◌, ◌&&◌, ◌==◌, ◌=?◌, Option, none, some, ltb,
}
use dev_platform.Base.{List, [], ◌∷◌, keep, contains, map, if◌then◌else◌}
use dev_platform.Base.Result.{Result, ok, err, ◌>>=◌}
use dev_platform.Base.Sorting.{string_ltb}
use dev_platform.MachinePool.Slots.{Slot, Taken, held, too_few, failed, try_take_slots}

-- A file of the directory, and whether a live process holds its lock.
pub record Ticket : Type 0 where
  pub name : String
  pub alive : Bool

-- The `PoolError`s of the queue and of the loop that waits in it.
pub data PoolError : Type 0 where
  unexpected_entry : String → PoolError
  ticket_disappeared : PoolError
  slot_unusable : PoolError
  unmeasurable : PoolError
  wait_timed_out : PoolError

abbrev pub Order : Type 0
Order = ℕ × ℕ

unfoldable pub order_ltb : Order → Order → Bool
order_ltb (r, t) (q, u) = ltb r q || (r =? q && ltb t u)

pub record Queued : Type 0 where
  pub order : Order
  pub ticket : Ticket

-- One place of a stable sort: before the first entry with a greater key. Names are sorted first.
unfoldable pub queued_ltb : Queued → Queued → Bool
unfolding order_ltb string_ltb
queued_ltb a b =
    order_ltb a.order b.order
    || ((a.order.0 =? b.order.0 && a.order.1 =? b.order.1)
        && string_ltb a.ticket.name b.ticket.name)

unfoldable pub enqueue : Queued → List Queued → List Queued
unfolding queued_ltb
enqueue a [] = a ∷ []
enqueue a (b ∷ bs) = if queued_ltb b a then b ∷ enqueue a bs else a ∷ b ∷ bs

module _ (ticket_re : String → Option Order) where
  ticket_order : String → Result PoolError Order
  ticket_order name = elim (ticket_re name) [ none ↦ err (unexpected_entry name) | some o ↦ ok o ]

  -- `_list_tickets`
  unfoldable pub list_tickets : List Ticket → Result PoolError (List Queued)
  unfolding ticket_order enqueue
  list_tickets [] = ok []
  list_tickets (t ∷ ts) = do
    o ← ticket_order t.name
    rest ← list_tickets ts
    ok (enqueue (record { order = o; ticket = t }) rest)

  -- `_scan_queue` with `remove_dead=True`: the live names in order, and the directory afterwards. No ticket vanishes
  -- within a scan, and no permission is refused.
  unfoldable pub scan_queue : String → List Ticket → Result PoolError (List String × List Ticket)
  unfolding list_tickets
  scan_queue own tickets = do
    queued ← list_tickets tickets
    ok (
      map (λ q. q.ticket.name) (keep (λ q. q.ticket.name == own || q.ticket.alive) queued),
      keep (λ t. t.name == own || t.alive) tickets,
    )

-- Why the run has to wait, or the slots that it took.
pub data Admission : Type 0 where
  being_admitted earlier_ranked no_tokens : Admission
  admitted : List ℕ → Admission

pub record Machine : Type 0 where
  pub tickets : List Ticket
  pub slots : List Slot

unfoldable pub is_first : String → List String → Bool
is_first own [] = false
is_first own (x ∷ xs) = x == own

took : Machine → Taken × List Slot → Result PoolError Admission × Machine
took m (held fds, slots) = (ok (admitted fds), record m { slots = slots })
took m (too_few, slots) = (ok no_tokens, record m { slots = slots })
took m (failed, slots) = (err slot_unusable, record m { slots = slots })

unfoldable pub take : ℕ → ℕ → Machine → Result PoolError Admission × Machine
unfolding took try_take_slots
take run weight m = took m (try_take_slots run weight m.slots)

module _ (ticket_re : String → Option Order) where
  after_scan :
      String
      → ℕ
      → ℕ
      → Machine
      → Result PoolError (List String × List Ticket)
      → Result PoolError Admission × Machine
  unfolding is_first take
  after_scan own run weight m (err e) = (err e, m)
  after_scan own run weight m (ok (live, tickets)) =
      let m' = record m { tickets = tickets } in
      if contains live own
      then if is_first own live then take run weight m' else (ok earlier_ranked, m')
      else (err ticket_disappeared, m')

  -- `_admit_if_head`; the flag tells whether the admission lock was got.
  unfoldable pub admit_if_head :
      Bool → String → ℕ → ℕ → Machine → Result PoolError Admission × Machine
  unfolding after_scan scan_queue
  admit_if_head false own run weight m = (ok being_admitted, m)
  admit_if_head true own run weight m =
      after_scan own run weight m (scan_queue ticket_re own m.tickets)
