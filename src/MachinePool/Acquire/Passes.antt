-- ===== src/MachinePool/Acquire/Passes.antt =====
-- What one pass of the loop does: the slots that it leaves, and when it admits the run.
use dev_platform.Base.{contains, not, ℕ, ◌≡◌, ◌≢◌, refl, inl, inr, String, Bool, true, false}
use dev_platform.Base.{Option, none, some, List, length, Bool-cases, if◌then◌else◌}
use dev_platform.Base.Result.{Result, ok, err}
use dev_platform.MachinePool.Slots.{close_all}
use dev_platform.MachinePool.Queue.{
  Ticket, PoolError, scan_queue, is_first, Order, Machine, Admission, ticket_disappeared,
}
use dev_platform.MachinePool.Queue.{
  admitted, being_admitted, earlier_ranked, no_tokens, admit_if_head,
}
use dev_platform.MachinePool.Queue.Kept.{Kept, admit_if_head-Kept}
use dev_platform.MachinePool.Acquire.{PoolConfig, Measured, admission_blocker, Poll}
use dev_platform.MachinePool.Acquire.{Pass, returns, raises, waits, finish}
use dev_platform.MachinePool.Acquire.{head_pass, behind_pass, after_seen, Blocker, pass}

module _ (ticket_re : String → Option Order) (config : PoolConfig) (own : String)
    (run weight : ℕ) where
  -- What a pass leaves of the slots that it found.
  abbrev pub PassKept : Poll → Pass → Type 0
  PassKept p (returns fds m) = (length fds ≡ weight) × (close_all fds m.slots ≡ p.machine.slots)
  PassKept p (raises e m) = m.slots ≡ p.machine.slots
  PassKept p (waits m) = m.slots ≡ p.machine.slots

  finish-PassKept :
      (p : Poll) (writable : Bool) (r : Result PoolError Admission × Machine)
      → Kept weight p.machine.slots r
      → PassKept p (finish writable r)
  unfolding finish
  finish-PassKept p writable (err e, m) k = k
  finish-PassKept p true (ok (admitted fds), m) k = k
  finish-PassKept p false (ok (admitted fds), m) k = k.1
  finish-PassKept p writable (ok being_admitted, m) k = k
  finish-PassKept p writable (ok earlier_ranked, m) k = k
  finish-PassKept p writable (ok no_tokens, m) k = k

  head_pass-PassKept :
      (p : Poll) (measured : Option Measured)
      → PassKept p (head_pass ticket_re config own run weight p measured)
  unfolding head_pass
  head_pass-PassKept p none = refl
  head_pass-PassKept p (some m) =
      elim (admission_blocker config m)
        as (λ b. PassKept p (elim b [
          | some reason ↦ waits p.machine
          | none ↦ finish p.writable (admit_if_head ticket_re p.got_lock own run weight p.machine)
        ])) [
          | some reason ↦ refl
          | none ↦
              finish-PassKept p p.writable _
                (admit_if_head-Kept ticket_re own run weight p.got_lock p.machine)
        ]

  behind_pass-PassKept :
      (first : Bool) (p : Poll) (measured : Option Measured)
      → PassKept p (behind_pass ticket_re config own run weight first p measured)
  unfolding behind_pass
  behind_pass-PassKept true p none = refl
  behind_pass-PassKept true p (some m) = refl
  behind_pass-PassKept false p m = refl

  after_seen-PassKept :
      (first : Bool) (p : Poll) (r : Result PoolError (List String × List Ticket))
      → PassKept p (after_seen ticket_re config own run weight first p r)
  unfolding after_seen
  after_seen-PassKept first p (err e) = refl
  after_seen-PassKept first p (ok (live, left)) =
      elim (contains live own)
        as (λ b. PassKept p (
          if not b
          then raises ticket_disappeared p.machine
          else if is_first own live
          then head_pass ticket_re config own run weight p p.measured
          else behind_pass ticket_re config own run weight first p p.measured)) [
            | true ↦
                elim (is_first own live)
                  as (λ b. PassKept p (
                    if b
                    then head_pass ticket_re config own run weight p p.measured
                    else behind_pass ticket_re config own run weight first p p.measured)) [
                      | true ↦ head_pass-PassKept p p.measured
                      | false ↦ behind_pass-PassKept first p p.measured
                    ]
            | false ↦ refl
          ]

  pub pass-PassKept :
      (first : Bool) (p : Poll) → PassKept p (pass ticket_re config own run weight first p)
  unfolding pass
  pass-PassKept first p = after_seen-PassKept first p (scan_queue ticket_re own p.seen)

  -- A pass that returns descriptors found the run at the head of the queue and unblocked.
  pub record Admits (p : Poll) (fds : List ℕ) : Type 0 where
    pub measured : Measured
    pub was_measured : p.measured ≡ some measured
    pub unblocked : admission_blocker config measured ≡ none
    pub admitted_head :
        (admit_if_head ticket_re p.got_lock own run weight p.machine).0 ≡ ok (admitted fds)

  finish_returns :
      (writable : Bool) (r : Result PoolError Admission × Machine) (fds : List ℕ) (m : Machine)
      → finish writable r ≡ returns fds m
      → r.0 ≡ ok (admitted fds)
  unfolding finish
  finish_returns writable (err e, m) fds m' h = cc
  finish_returns true (ok (admitted fds'), m) fds m' h = cc
  finish_returns false (ok (admitted fds'), m) fds m' h = cc
  finish_returns writable (ok being_admitted, m) fds m' h = cc
  finish_returns writable (ok earlier_ranked, m) fds m' h = cc
  finish_returns writable (ok no_tokens, m) fds m' h = cc

  head_pass_returns :
      (p : Poll) (fds : List ℕ) (m : Machine)
      → head_pass ticket_re config own run weight p p.measured ≡ returns fds m
      → Admits p fds
  unfolding head_pass
  head_pass_returns p fds m h = go p.measured refl h
    where
      unblocked_go :
          (measured : Measured) (b : Option Blocker)
          → p.measured ≡ some measured
          → admission_blocker config measured ≡ b
          → (elim b as (λ x. Pass) [
            | some reason ↦ waits p.machine
            | none ↦ finish p.writable (admit_if_head ticket_re p.got_lock own run weight p.machine)
          ])
            ≡ returns fds m
          → Admits p fds
      unblocked_go measured (some reason) e b k = cc
      unblocked_go measured none e b k = record {
        measured = measured;
        was_measured = e;
        unblocked = b;
        admitted_head = finish_returns p.writable _ fds m k;
      }

      go :
          (o : Option Measured)
          → p.measured ≡ o
          → head_pass ticket_re config own run weight p o ≡ returns fds m
          → Admits p fds
      go none e k = cc
      go (some measured) e k = unblocked_go measured (admission_blocker config measured) e refl k

  behind_pass_returns :
      (first : Bool) (p : Poll) (measured : Option Measured) (fds : List ℕ) (m : Machine)
      → behind_pass ticket_re config own run weight first p measured ≢ returns fds m
  unfolding behind_pass
  behind_pass_returns true p none fds m h = cc
  behind_pass_returns true p (some measured) fds m h = cc
  behind_pass_returns false p measured fds m h = cc

  after_seen_returns :
      (first : Bool) (p : Poll) (r : Result PoolError (List String × List Ticket)) (fds : List ℕ)
      (m : Machine)
      → after_seen ticket_re config own run weight first p r ≡ returns fds m
      → Admits p fds
  unfolding after_seen
  after_seen_returns first p (err e) fds m h = cc
  after_seen_returns first p (ok (live, left)) fds m h = elim (Bool-cases (contains live own)) [
    | inl here ↦ elim (Bool-cases (is_first own live)) [
      | inl head ↦ head_pass_returns p fds m (rw (here, head) at h)
      | inr behind ↦ absurd (behind_pass_returns first p p.measured fds m (rw (here, behind) at h))
    ]
    | inr gone ↦ cc (rw gone at h)
  ]

  pub pass_returns :
      (first : Bool) (p : Poll) (fds : List ℕ) (m : Machine)
      → pass ticket_re config own run weight first p ≡ returns fds m
      → Admits p fds
  unfolding pass
  pass_returns first p fds m h =
      after_seen_returns first p (scan_queue ticket_re own p.seen) fds m h
