-- ===== src/MachinePool/Slots/AllOrNothing.antt =====
-- A run takes all the slots that it asked for, or leaves every slot as it was.
use mathlib.Core.List.{append-nil, append_assoc}
use mathlib.Core.Path.{subst}
use native.Mathlib.Nat.{zero-add}
use dev_platform.Base.{◌<◌, leb, ℕ, suc, ◌+◌, ◌≡◌, refl, sym, ◌∙◌, ap, Bool, true, false}
use dev_platform.Base.{List, [], ◌∷◌, ◌++◌, ◌=?◌, length, length-append, if◌then◌else◌, arith}
use dev_platform.MachinePool.Slots.{Slot, free, locked, denied, Taken, held, too_few, failed}
use dev_platform.MachinePool.Slots.{close, close_all, take_loop, try_take_slots}

close-append :
    (before : List Slot) (s : Slot) (after : List Slot)
    → close (length before) (before ++ (s ∷ after)) ≡ before ++ (free ∷ after)
unfolding close
close-append [] s after = refl
close-append (b ∷ before) s after = ap (λ t. b ∷ t) (close-append before s after)

close_all-append :
    (is : List ℕ) (i : ℕ) (slots : List Slot)
    → close_all (is ++ (i ∷ [])) slots ≡ close i (close_all is slots)
unfolding close_all
close_all-append [] i slots = refl
close_all-append (j ∷ is) i slots = close_all-append is i (close j slots)

-- Closing `fds` turns the slots `before`, which the loop has passed, back into `orig`.
record Undoes (fds : List ℕ) (before orig : List Slot) : Type 0 where
  same_length : length before ≡ length orig
  undo : (after : List Slot) → close_all fds (before ++ after) ≡ orig ++ after

Undoes-skip :
    (fds : List ℕ) (before orig : List Slot) (s : Slot)
    → Undoes fds before orig
    → Undoes fds (before ++ (s ∷ [])) (orig ++ (s ∷ []))
Undoes-skip fds before orig s u = record {
  same_length =
      omega (arith, u.same_length, length-append before (s ∷ []), length-append orig (s ∷ []));
  undo = λ after. simp append_assoc (u.undo (s ∷ after));
}

Undoes-take :
    (fds : List ℕ) (before orig : List Slot) (run : ℕ)
    → Undoes fds before orig
    → Undoes (fds ++ (length before ∷ [])) (before ++ (locked run ∷ [])) (orig ++ (free ∷ []))
Undoes-take fds before orig run u = record {
  same_length = omega (
    arith,
    u.same_length,
    length-append before (locked run ∷ []),
    length-append orig (free ∷ []),
  );
  undo = λ after.
      close_all-append fds (length before) ((before ++ (locked run ∷ [])) ++ after)
      ∙ ap (close (length before)) (
          ap (close_all fds) (append_assoc before (locked run ∷ []) after)
          ∙ u.undo (locked run ∷ after))
      ∙ rw u.same_length
          (close-append orig (locked run) after ∙ sym (append_assoc orig (free ∷ []) after));
}

abbrev pub Restores : List Slot → Taken × List Slot → Type 0
Restores slots (held fds, after) = close_all fds after ≡ slots
Restores slots (_, after) = after ≡ slots

take_loop-Restores :
    (run weight : ℕ) (fds : List ℕ) (before orig slots : List Slot)
    → Undoes fds before orig
    → Restores (orig ++ slots) (take_loop run weight fds before slots)
unfolding take_loop
take_loop-Restores run weight fds before orig [] u =
    ap (close_all fds) (sym (append-nil before)) ∙ u.undo []
take_loop-Restores run weight fds before orig (denied ∷ slots) u = u.undo (denied ∷ slots)
take_loop-Restores run weight fds before orig (locked r ∷ slots) u =
    subst (λ t. Restores t (take_loop run weight fds (before ++ (locked r ∷ [])) slots))
      (append_assoc orig (locked r ∷ []) slots)
      (take_loop-Restores run weight fds (before ++ (locked r ∷ [])) (orig ++ (locked r ∷ [])) slots
        (Undoes-skip fds before orig (locked r) u))
take_loop-Restores run weight fds before orig (free ∷ slots) u =
    let fds' = fds ++ (length before ∷ []) in
    let rest = take_loop run weight fds' (before ++ (locked run ∷ [])) slots in
    let ih : Restores (orig ++ (free ∷ slots)) rest =
      subst (λ t. Restores t rest) (append_assoc orig (free ∷ []) slots)
        (take_loop-Restores run weight fds' (before ++ (locked run ∷ [])) (orig ++ (free ∷ []))
          slots (Undoes-take fds before orig run u)) in
    let taken = Undoes-take fds before orig run u in
    let closed : close_all fds' (before ++ (locked run ∷ slots)) ≡ orig ++ (free ∷ slots) =
      ap (close_all fds') (sym (append_assoc before (locked run ∷ []) slots))
      ∙ taken.undo slots
      ∙ append_assoc orig (free ∷ []) slots in
    elim (length fds' =? weight)
      as (λ b.
        Restores (orig ++ (free ∷ slots))
          (if b then (held fds', before ++ (locked run ∷ slots)) else rest)) [
            | true ↦ closed
            | false ↦ ih
          ]

-- Where no slots are taken, they are all as they were; where some are taken, closing their descriptors
-- gives the slots as they were.
pub try_take_slots-Restores :
    (run weight : ℕ) (slots : List Slot) → Restores slots (try_take_slots run weight slots)
unfolding try_take_slots
try_take_slots-Restores run weight slots =
    take_loop-Restores run weight [] [] [] slots
      (record { same_length = refl; undo = λ after. unfold close_all in refl })

abbrev pub count_free : List Slot → ℕ
count_free [] = 0
count_free (free ∷ slots) = suc (count_free slots)
count_free (_ ∷ slots) = count_free slots

-- The slots that a run holds.
abbrev pub count_run : ℕ → List Slot → ℕ
count_run r [] = 0
count_run r (locked q ∷ slots) = if q =? r then suc (count_run r slots) else count_run r slots
count_run r (free ∷ slots) = count_run r slots
count_run r (denied ∷ slots) = count_run r slots

count_run-append :
    (r : ℕ) (xs ys : List Slot) → count_run r (xs ++ ys) ≡ count_run r xs + count_run r ys
count_run-append r [] ys = omega arith
count_run-append r (free ∷ xs) ys = count_run-append r xs ys
count_run-append r (denied ∷ xs) ys = count_run-append r xs ys
count_run-append r (locked q ∷ xs) ys = ground (arith, count_run-append r xs ys)

-- `n` if the run asked about is the run that takes slots.
abbrev pub if_own : ℕ → ℕ → ℕ → ℕ
if_own run r n = if run =? r then n else 0

-- What a successful round of the loop has done to the slots.
pub record Gains (run weight r : ℕ) (fds : List ℕ) (slots : List Slot) (fds' : List ℕ)
    (after : List Slot) : Type 0 where
  pub all_taken : length fds' ≡ weight
  pub counted :
      count_run r after + if_own run r (length fds) ≡ count_run r slots + if_own run r weight

abbrev pub Gained : ℕ → ℕ → ℕ → List ℕ → List Slot → Taken × List Slot → Type 0
Gained run weight r fds slots (held fds', after) = Gains run weight r fds slots fds' after
Gained run weight r fds slots (_, after) = Unit

Gained-trans :
    (run weight r : ℕ) (fds fds' : List ℕ) (slots slots' : List Slot) (t : Taken × List Slot)
    → count_run r slots' + if_own run r (length fds)
      ≡ count_run r slots + if_own run r (length fds')
    → Gained run weight r fds' slots' t
    → Gained run weight r fds slots t
Gained-trans run weight r fds fds' slots slots' (held is, after) e g = record {
  all_taken = g.all_taken;
  counted = omega (arith, e, g.counted);
}
Gained-trans run weight r fds fds' slots slots' (too_few, after) e g = tt
Gained-trans run weight r fds fds' slots slots' (failed, after) e g = tt

count_run-take :
    (run r : ℕ) (fds : List ℕ) (i : ℕ) (before slots : List Slot)
    → count_run r (before ++ (locked run ∷ slots)) + if_own run r (length fds)
      ≡ count_run r (before ++ (free ∷ slots)) + if_own run r (length (fds ++ (i ∷ [])))
count_run-take run r fds i before slots = ground (
  arith,
  length-append fds (i ∷ []),
  count_run-append r before (locked run ∷ slots),
  count_run-append r before (free ∷ slots),
)

take_loop-Gained :
    (run weight r : ℕ) (fds : List ℕ) (before slots : List Slot)
    → Gained run weight r fds (before ++ slots) (take_loop run weight fds before slots)
unfolding take_loop
take_loop-Gained run weight r fds before [] = tt
take_loop-Gained run weight r fds before (denied ∷ slots) = tt
take_loop-Gained run weight r fds before (locked q ∷ slots) =
    subst
      (λ t. Gained run weight r fds t (take_loop run weight fds (before ++ (locked q ∷ [])) slots))
      (append_assoc before (locked q ∷ []) slots)
      (take_loop-Gained run weight r fds (before ++ (locked q ∷ [])) slots)
take_loop-Gained run weight r fds before (free ∷ slots) = take_free (
    take_loop-Gained run weight r (fds ++ (length before ∷ [])) (before ++ (locked run ∷ [])) slots)
  where
    fds' : List ℕ
    fds' = fds ++ (length before ∷ [])

    rest : Taken × List Slot
    rest = take_loop run weight fds' (before ++ (locked run ∷ [])) slots

    go :
        (b : Bool)
        → (length fds' =? weight) ≡ b
        → Gained run weight r fds' (before ++ (locked run ∷ slots)) rest
        → Gained run weight r fds
            (before ++ (free ∷ slots))
            (if b then (held fds', before ++ (locked run ∷ slots)) else rest)
    go true e ih = record {
      all_taken = ground arith;
      counted = ground (arith, count_run-take run r fds (length before) before slots);
    }
    go false e ih =
        Gained-trans run weight r fds fds' _ (before ++ (locked run ∷ slots)) rest
          (count_run-take run r fds (length before) before slots) ih

    take_free :
        Gained run weight r fds' ((before ++ (locked run ∷ [])) ++ slots) rest
        → Gained run weight r fds
            (before ++ (free ∷ slots))
            (if length fds' =? weight then (held fds', before ++ (locked run ∷ slots)) else rest)
    take_free ih = go (length fds' =? weight) refl (
        subst (λ t. Gained run weight r fds' t rest) (append_assoc before (locked run ∷ []) slots)
          ih)

-- Where slots are taken, as many are taken as were asked for; the run gains that number of locked slots,
-- and the number that any other run has locked stays the same.
pub try_take_slots-Gained :
    (run weight r : ℕ) (slots : List Slot)
    → Gained run weight r [] slots (try_take_slots run weight slots)
unfolding try_take_slots
try_take_slots-Gained run weight r slots = take_loop-Gained run weight r [] [] slots

abbrev pub is_held : Taken → Bool
is_held (held fds) = true
is_held _ = false

abbrev pub has_denied : List Slot → Bool
has_denied [] = false
has_denied (denied ∷ slots) = true
has_denied (_ ∷ slots) = has_denied slots

take_loop_enough :
    (run weight : ℕ) (fds : List ℕ) (before slots : List Slot)
    → has_denied slots ≡ false
    → length fds < weight
    → is_held (take_loop run weight fds before slots).0 ≡ leb weight (length fds + count_free slots)
unfolding take_loop
take_loop_enough run weight fds before [] ok h = ground arith
take_loop_enough run weight fds before (denied ∷ slots) ok h = cc
take_loop_enough run weight fds before (locked q ∷ slots) ok h =
    take_loop_enough run weight fds (before ++ (locked q ∷ [])) slots ok h
take_loop_enough run weight fds before (free ∷ slots) ok h = ground (
  arith,
  length-append fds (length before ∷ []),
  take_loop_enough run weight (fds ++ (length before ∷ [])) (before ++ (locked run ∷ [])) slots ok,
)

-- Where each slot file can be opened and at least one slot is asked for, slots are taken exactly if as many
-- are free as are asked for.
pub try_take_slots_enough :
    (run weight : ℕ) (slots : List Slot)
    → has_denied slots ≡ false
    → 0 < weight
    → is_held (try_take_slots run weight slots).0 ≡ leb weight (count_free slots)
unfolding try_take_slots
try_take_slots_enough run weight slots ok h =
    take_loop_enough run weight [] [] slots ok h ∙ ground (arith, zero-add (count_free slots))
