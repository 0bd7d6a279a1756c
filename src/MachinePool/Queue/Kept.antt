-- ===== src/MachinePool/Queue/Kept.antt =====
-- An attempt at admission takes as many slots as were asked for, or none.
use dev_platform.Base.{
  ℕ, ◌≡◌, refl, String, Bool, true, false, Option, List, [], length, contains, if◌then◌else◌,
}
use dev_platform.Base.Result.{Result, ok, err}
use dev_platform.MachinePool.Slots.{Slot, Taken, held, too_few, failed, close_all, try_take_slots}
use dev_platform.MachinePool.Slots.AllOrNothing.{Restores, try_take_slots-Restores}
use dev_platform.MachinePool.Slots.AllOrNothing.{Gained, try_take_slots-Gained}
use dev_platform.MachinePool.Queue.{
  Ticket, PoolError, Order, Machine, Admission, admitted, ticket_disappeared,
}
use dev_platform.MachinePool.Queue.{being_admitted, earlier_ranked, no_tokens, took, take, is_first}
use dev_platform.MachinePool.Queue.{after_scan, scan_queue, admit_if_head}

-- The slots are as they were, or `weight` descriptors are held that give them back.
abbrev pub Kept : ℕ → List Slot → Result PoolError Admission × Machine → Type 0
Kept weight slots (ok (admitted fds), m) = (length fds ≡ weight) × (close_all fds m.slots ≡ slots)
Kept weight slots (ok being_admitted, m) = m.slots ≡ slots
Kept weight slots (ok earlier_ranked, m) = m.slots ≡ slots
Kept weight slots (ok no_tokens, m) = m.slots ≡ slots
Kept weight slots (err e, m) = m.slots ≡ slots

took-Kept :
    (run weight : ℕ) (m : Machine) (t : Taken × List Slot)
    → Restores m.slots t
    → Gained run weight run [] m.slots t
    → Kept weight m.slots (took m t)
unfolding took
took-Kept run weight m (held fds, slots) r g = (g.all_taken, r)
took-Kept run weight m (too_few, slots) r g = r
took-Kept run weight m (failed, slots) r g = r

take-Kept : (run weight : ℕ) (m : Machine) → Kept weight m.slots (take run weight m)
unfolding take
take-Kept run weight m =
    took-Kept run weight m (try_take_slots run weight m.slots)
      (try_take_slots-Restores run weight m.slots) (try_take_slots-Gained run weight run m.slots)

module _ (ticket_re : String → Option Order) (own : String) (run weight : ℕ) where
  after_scan-Kept :
      (m : Machine) (r : Result PoolError (List String × List Ticket))
      → Kept weight m.slots (after_scan ticket_re own run weight m r)
  unfolding after_scan
  after_scan-Kept m (err e) = refl
  after_scan-Kept m (ok (live, left)) =
      let m' = record m { tickets = left } in
      elim (contains live own)
        as (λ b. Kept weight m.slots (
          if b
          then (if is_first own live then take run weight m' else (ok earlier_ranked, m'))
          else (err ticket_disappeared, m'))) [
            | true ↦
                elim (is_first own live)
                  as (λ b.
                    Kept weight m.slots
                      (if b then take run weight m' else (ok earlier_ranked, m'))) [
                        | true ↦ take-Kept run weight m'
                        | false ↦ refl
                      ]
            | false ↦ refl
          ]

  -- An attempt that admits the run takes as many slots as were asked for, and closing them gives the slots
  -- as they were; any other attempt leaves the slots as they were.
  pub admit_if_head-Kept :
      (got : Bool) (m : Machine)
      → Kept weight m.slots (admit_if_head ticket_re got own run weight m)
  unfolding admit_if_head
  admit_if_head-Kept false m = refl
  admit_if_head-Kept true m = after_scan-Kept m (scan_queue ticket_re own m.tickets)
