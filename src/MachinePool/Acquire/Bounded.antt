-- ===== src/MachinePool/Acquire/Bounded.antt =====
-- The wait is bounded by the deadline.
use dev_platform.Base.{ℕ, ◌-◌, ◌≤◌, ◌<◌, ◌≡◌, refl, inl, inr, String, Bool, true, false, ◌&&◌}
use dev_platform.Base.{Option, List, [], ◌∷◌, arith, Some, if◌then◌else◌}
use dev_platform.MachinePool.Queue.{wait_timed_out, Order, Machine}
use dev_platform.MachinePool.Acquire.{PoolConfig, late, Poll, Outcome}
use dev_platform.MachinePool.Acquire.{raised, waiting, Pass, returns, raises, waits}
use dev_platform.MachinePool.Acquire.{pass, after_pass, acquire_loop}

abbrev pub is_waiting : Outcome → Bool
is_waiting waiting = true
is_waiting _ = false

late_of :
    (config : PoolConfig) (started now : ℕ)
    → config.wait_timeout_seconds ≤ now - started
    → late config started now ≡ true
unfolding late
late_of config started now h = ground arith

in_time_of :
    (config : PoolConfig) (started now : ℕ)
    → late config started now ≡ false
    → now - started < config.wait_timeout_seconds
unfolding late
in_time_of config started now h = ground arith

after_pass-ends :
    (too_late : Bool) (r : Pass) (rest : Machine → Outcome × Machine)
    → ((m : Machine) → too_late ≡ false → is_waiting (rest m).0 ≡ false)
    → is_waiting (after_pass too_late r rest).0 ≡ false
unfolding after_pass
after_pass-ends too_late (returns fds m) rest h = refl
after_pass-ends too_late (raises e m) rest h = refl
after_pass-ends true (waits m) rest h = refl
after_pass-ends false (waits m) rest h = h m refl

module _ (ticket_re : String → Option Order) (config : PoolConfig) (own : String)
    (run weight : ℕ) where
  abbrev loop : ℕ → Bool → Bool → Machine → List Poll → Outcome × Machine
  loop = acquire_loop ticket_re config own run weight

  abbrev outcome_if : Poll → Bool → Outcome × Machine → Outcome × Machine
  outcome_if p b rest = if b then (raised wait_timed_out, p.machine) else rest

  -- Where some pass reads the clock, at its end, at the deadline or later, the loop does not still wait
  -- after the passes.
  pub acquire_loop_ends :
      (started : ℕ) (waited first : Bool) (m : Machine) (ps : List Poll)
      → Some (λ p. config.wait_timeout_seconds ≤ p.after - started) ps
      → is_waiting (acquire_loop ticket_re config own run weight started waited first m ps).0
        ≡ false
  unfolding acquire_loop
  acquire_loop_ends started waited first m [] h = absurd h
  acquire_loop_ends started waited first m (p ∷ ps) h =
      elim (waited && late config started p.before)
        as (λ b.
          is_waiting
            (outcome_if p b (
              after_pass (late config started p.after)
                (pass ticket_re config own run weight first p)
                (λ m'. loop started true false m' ps))).0
          ≡ false) [
            | true ↦ refl
            | false ↦
                after_pass-ends (late config started p.after)
                  (pass ticket_re config own run weight first p)
                  (λ m'. loop started true false m' ps)
                  (λ m' e. elim h [
                    | inl now ↦ absurd (cc (e, late_of config started p.after now))
                    | inr later ↦ acquire_loop_ends started true false m' ps later
                  ])
          ]
