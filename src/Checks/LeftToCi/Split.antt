-- ===== src/Checks/LeftToCi/Split.antt =====
-- Nothing is lost between the local run and the required check.
use dev_platform.Base.{String, ◌≡◌, refl, not, ◌||◌}
use dev_platform.Base.{List, [], ◌∷◌, arith, keep, contains, is_empty, length, contains-keep}
use dev_platform.Base.{none, inl, inr, Bool-cases}
use dev_platform.Checks.Config.{Check}
use dev_platform.Checks.LeftToCi.{leave_check, or_empty, kept_kinds, is_unproven}

length-kept_kinds :
    (leave cs kinds : List String)
    → length kinds ≡ length cs
    → length (kept_kinds leave cs kinds) ≡ length (keep (λ c. not (contains leave c)) cs)
unfolding kept_kinds
length-kept_kinds leave [] kinds h = refl
length-kept_kinds leave (c ∷ cs) [] h = absurd (omega arith)
length-kept_kinds leave (c ∷ cs) (k ∷ ks) h = ground (arith, length-kept_kinds leave cs ks)

-- For a check with no command left out before, a command is one of the check's exactly if it is one of
-- those that remain or one of those recorded as left to the required check.
pub contains-leave_check :
    (leave : List String) (check : Check) (command : String)
    → check.left_to_required_ci ≡ none
    → let left = leave_check leave check in
      contains check.commands command
      ≡ (contains left.commands command || contains (or_empty left.left_to_required_ci) command)
unfolding leave_check or_empty
contains-leave_check leave check command fresh =
    elim (Bool-cases
      (is_empty (keep (contains leave) check.commands) || is_unproven check.selection_reason)) [
        | inl e ↦ rw (e, fresh) (ground arith)
        | inr e ↦ rw e (
            ground (
              arith,
              contains-keep (contains leave) check.commands command,
              contains-keep (λ (c : String). not (contains leave c)) check.commands command,
            ))
      ]

-- Where a check has as many kinds of evidence as commands, it still has after commands are left out.
pub length-leave_check :
    (leave : List String) (check : Check)
    → length (or_empty check.evidence_types) ≡ length check.commands
    → let left = leave_check leave check in
      length (or_empty left.evidence_types) ≡ length left.commands
unfolding leave_check or_empty
length-leave_check leave check h =
    ground (arith, length-kept_kinds leave check.commands (or_empty check.evidence_types))
