-- ===== src/MachinePool/Acquire/Outcomes.antt =====
-- What the loop ends in: a run that is admitted was the head of the queue, was not blocked by a
-- measurement and got its slots in time, and one that is not admitted keeps no slot.
use dev_platform.Base.{
  ℕ, ◌-◌, ◌<◌, ◌≡◌, refl, sym, ap, ◌∙◌, ◌⊎◌, inl, inr, String, Bool, true, false, ◌&&◌,
}
use dev_platform.Base.{
  Option, none, some, List, [], ◌∷◌, arith, Some, All, length, Bool-cases, if◌then◌else◌,
}
use dev_platform.Base.Result.{Result, ok, err}
use dev_platform.MachinePool.Slots.{Slot, close_all}
use dev_platform.MachinePool.Queue.{PoolError, wait_timed_out, Order, Machine, Admission}
use dev_platform.MachinePool.Queue.{admitted, being_admitted, earlier_ranked, no_tokens}
use dev_platform.MachinePool.Queue.Kept.{Kept, admit_if_head-Kept}
use dev_platform.MachinePool.Queue.Head.{FollowsOwn, admit_if_head_first}
use dev_platform.MachinePool.Acquire.{PoolConfig, Measured, admission_blocker, late, Poll, Outcome}
use dev_platform.MachinePool.Acquire.{acquired, raised, waiting, Pass, returns, raises, waits}
use dev_platform.MachinePool.Acquire.{pass, after_pass, acquire_loop}
use dev_platform.MachinePool.Acquire.Passes.{PassKept, pass-PassKept, Admits, pass_returns}

in_time_of :
    (config : PoolConfig) (started now : ℕ)
    → late config started now ≡ false
    → now - started < config.wait_timeout_seconds
unfolding late
in_time_of config started now h = ground arith

after_pass_acquired :
    (too_late : Bool) (r : Pass) (rest : Machine → Outcome × Machine) (fds : List ℕ)
    → (after_pass too_late r rest).0 ≡ acquired fds
    → ((m : Machine) × (r ≡ returns fds m)) ⊎ ((m : Machine) × ((rest m).0 ≡ acquired fds))
unfolding after_pass
after_pass_acquired too_late (returns fds' m) rest fds h = inl (m, cc h)
after_pass_acquired too_late (raises e m) rest fds h = cc
after_pass_acquired true (waits m) rest fds h = cc
after_pass_acquired false (waits m) rest fds h = inr (m, h)

sized_of :
    (weight : ℕ) (slots : List Slot) (fds : List ℕ) (r : Result PoolError Admission × Machine)
    → Kept weight slots r
    → r.0 ≡ ok (admitted fds)
    → length fds ≡ weight
sized_of weight slots fds (ok (admitted fds'), m) k h =
    let same : fds' ≡ fds = cc h in ap length (sym same) ∙ k.0
sized_of weight slots fds (ok being_admitted, m) k h = cc
sized_of weight slots fds (ok earlier_ranked, m) k h = cc
sized_of weight slots fds (ok no_tokens, m) k h = cc
sized_of weight slots fds (err e, m) k h = cc

module _ (ticket_re : String → Option Order) (config : PoolConfig) (own : String)
    (run weight : ℕ) where
  -- What is known of the pass that admits the run.
  pub record AdmittedBy (started : ℕ) (waited : Bool) (fds : List ℕ) (p : Poll) : Type 0 where
    pub in_time : waited ≡ true → p.before - started < config.wait_timeout_seconds
    pub measured : Measured
    pub was_measured : p.measured ≡ some measured
    pub unblocked : admission_blocker config measured ≡ none
    pub head :
        (o : Order) → ticket_re own ≡ some o → All (FollowsOwn ticket_re own o) p.machine.tickets
    pub sized : length fds ≡ weight

  -- A pass of the list admits the run; only the first may be one before which nothing has waited.
  abbrev pub AdmittedIn : ℕ → Bool → List ℕ → List Poll → Type 0
  AdmittedIn started waited fds [] = ⊥
  AdmittedIn started waited fds (p ∷ ps) =
      AdmittedBy started waited fds p ⊎ AdmittedIn started true fds ps

  admitted_by :
      (started : ℕ) (waited : Bool) (fds : List ℕ) (p : Poll)
      → (waited && late config started p.before) ≡ false
      → Admits ticket_re config own run weight p fds
      → AdmittedBy started waited fds p
  admitted_by started waited fds p e a = record {
    in_time = λ w. in_time_of config started p.before (ground arith);
    measured = a.measured;
    was_measured = a.was_measured;
    unblocked = a.unblocked;
    head = λ o n.
        admit_if_head_first ticket_re p.got_lock own run weight p.machine o fds n a.admitted_head;
    sized =
        sized_of weight p.machine.slots fds _
          (admit_if_head-Kept ticket_re own run weight p.got_lock p.machine) a.admitted_head;
  }

  -- Where the loop acquires descriptors, they come from one of its passes: in time if something had waited
  -- before it, with measurements that do not block, with no live ticket before the run's own, and with as
  -- many descriptors as were asked for.
  pub acquire_loop_admitted :
      (started : ℕ) (waited first : Bool) (m : Machine) (ps : List Poll) (fds : List ℕ)
      → (acquire_loop ticket_re config own run weight started waited first m ps).0 ≡ acquired fds
      → AdmittedIn started waited fds ps
  unfolding acquire_loop
  acquire_loop_admitted started waited first m [] fds h = cc
  acquire_loop_admitted started waited first m (p ∷ ps) fds h =
      elim (Bool-cases (waited && late config started p.before)) [
        | inl overdue ↦ cc (rw overdue at h)
        | inr in_time ↦
            elim (after_pass_acquired (late config started p.after)
              (pass ticket_re config own run weight first p)
              (λ m'. acquire_loop ticket_re config own run weight started true false m' ps) fds
              (rw in_time at h)) [
                | inl (m', e) ↦ inl (
                    admitted_by started waited fds p in_time
                      (pass_returns ticket_re config own run weight first p fds m' e))
                | inr (m', e) ↦ inr (acquire_loop_admitted started true false m' ps fds e)
              ]
      ]

  -- The slots at the end: those of some pass, or those of some pass less the ones acquired.
  abbrev pub LoopKept : List Poll → Outcome × Machine → Type 0
  LoopKept ps (acquired fds, m) =
      Some (λ p. (length fds ≡ weight) × (close_all fds m.slots ≡ p.machine.slots)) ps
  LoopKept ps (raised e, m) = Some (λ p. m.slots ≡ p.machine.slots) ps
  LoopKept ps (waiting, m) = Unit

  LoopKept-cons :
      (p : Poll) (ps : List Poll) (r : Outcome × Machine) → LoopKept ps r → LoopKept (p ∷ ps) r
  LoopKept-cons p ps (acquired fds, m) k = inr k
  LoopKept-cons p ps (raised e, m) k = inr k
  LoopKept-cons p ps (waiting, m) k = tt

  after_pass-LoopKept :
      (p : Poll) (ps : List Poll) (too_late : Bool) (r : Pass) (rest : Machine → Outcome × Machine)
      → PassKept ticket_re config own run weight p r
      → ((m : Machine) → LoopKept ps (rest m))
      → LoopKept (p ∷ ps) (after_pass too_late r rest)
  unfolding after_pass
  after_pass-LoopKept p ps too_late (returns fds m) rest k h = inl k
  after_pass-LoopKept p ps too_late (raises e m) rest k h = inl k
  after_pass-LoopKept p ps true (waits m) rest k h = inl k
  after_pass-LoopKept p ps false (waits m) rest k h = LoopKept-cons p ps (rest m) (h m)

  -- Where the loop acquires, it holds as many descriptors as were asked for, and closing them gives the
  -- slots that one of the passes found; where it raises, the slots are those that one of the passes found.
  pub acquire_loop-LoopKept :
      (started : ℕ) (waited first : Bool) (m : Machine) (ps : List Poll)
      → LoopKept ps (acquire_loop ticket_re config own run weight started waited first m ps)
  unfolding acquire_loop
  acquire_loop-LoopKept started waited first m [] = tt
  acquire_loop-LoopKept started waited first m (p ∷ ps) =
      elim (waited && late config started p.before)
        as (λ b. LoopKept (p ∷ ps) (
          if b
          then (raised wait_timed_out, p.machine)
          else after_pass (late config started p.after)
              (pass ticket_re config own run weight first p)
              (λ m'. acquire_loop ticket_re config own run weight started true false m' ps))) [
                | true ↦ inl refl
                | false ↦
                    after_pass-LoopKept p ps (late config started p.after)
                      (pass ticket_re config own run weight first p)
                      (λ m'. acquire_loop ticket_re config own run weight started true false m' ps)
                      (pass-PassKept ticket_re config own run weight first p)
                      (λ m'. acquire_loop-LoopKept started true false m' ps)
              ]
