-- ===== src/MachinePool/Slots.antt =====
-- `_try_take_slots` of `template/scripts/machine_pool.py`. A slot file is free, locked by a run, or
-- cannot be opened. A descriptor is written as the index of the slot that it locks.
pub mod AllOrNothing
use dev_platform.Base.{
  ℕ, zero, suc, Bool, true, false, List, [], ◌∷◌, ◌++◌, ◌=?◌, length, if◌then◌else◌,
}

pub data Slot : Type 0 where
  free : Slot
  locked : ℕ → Slot
  denied : Slot

-- The descriptors taken, `None`, or the `PoolError` of a file that cannot be opened.
pub data Taken : Type 0 where
  held : List ℕ → Taken
  too_few : Taken
  failed : Taken

-- `os.close` drops the lock that the descriptor holds.
unfoldable pub close : ℕ → List Slot → List Slot
close i [] = []
close zero (s ∷ ss) = free ∷ ss
close (suc i) (s ∷ ss) = s ∷ close i ss

unfoldable pub close_all : List ℕ → List Slot → List Slot
unfolding close
close_all [] slots = slots
close_all (i ∷ is) slots = close_all is (close i slots)

-- The loop: `fds` are the descriptors held so far, `before` the slots that it has passed.
unfoldable pub take_loop : ℕ → ℕ → List ℕ → List Slot → List Slot → Taken × List Slot
unfolding close_all
take_loop run weight fds before [] = (too_few, close_all fds before)
take_loop run weight fds before (denied ∷ slots) =
    (failed, close_all fds (before ++ (denied ∷ slots)))
take_loop run weight fds before (locked r ∷ slots) =
    take_loop run weight fds (before ++ (locked r ∷ [])) slots
take_loop run weight fds before (free ∷ slots) =
    let fds' = fds ++ (length before ∷ []) in
    let rest = take_loop run weight fds' (before ++ (locked run ∷ [])) slots in
    if length fds' =? weight then (held fds', before ++ (locked run ∷ slots)) else rest

unfoldable pub try_take_slots : ℕ → ℕ → List Slot → Taken × List Slot
unfolding take_loop
try_take_slots run weight slots = take_loop run weight [] [] slots
