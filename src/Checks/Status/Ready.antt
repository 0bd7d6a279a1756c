-- ===== src/Checks/Status/Ready.antt =====
-- The commands of a selection, the state `ready`, and the light executions.
use dev_platform.Base.{String, ◌≡◌, ◌≢◌, refl, ◌∙◌, Bool, true, false, not, ◌&&◌, ◌||◌, ◌=?◌}
use dev_platform.Base.{List, [], ◌∷◌, ◌++◌, ℕ, arith, any, all, keep, contains, is_empty, length}
use dev_platform.Base.{
  inl, inr, Bool-cases, map, if◌then◌else◌, eq_iff, Distinct, Distinct-append, contains-append,
}
use dev_platform.Base.Sorting.{is_empty-sorted_set}
use dev_platform.Checks.Config.{Check}
use dev_platform.Checks.LeftToCi.{or_empty, leave_check, kept_kinds}
use dev_platform.Checks.LeftToCi.Split.{length-leave_check}
use dev_platform.Checks.Status.{add_new, add_checks, commands_for, ready, selection_status, State}
use dev_platform.Checks.Status.{empty_ids, scan_evidence, is_malformed, absent_kinds, assign}
use dev_platform.Checks.Status.{is_light, lease_loop}

contains-add_new :
    (seen cs : List String) (a : String)
    → contains (add_new seen cs) a ≡ (contains seen a || contains cs a)
unfolding add_new
contains-add_new seen [] a = ground arith
contains-add_new seen (c ∷ cs) a =
    contains-add_new (if contains seen c then seen else seen ++ (c ∷ [])) cs a
    ∙ ground (arith, contains-append seen (c ∷ []) a, eq_iff a c)

contains-add_checks :
    (seen : List String) (checks : List Check) (a : String)
    → contains (add_checks seen checks) a
      ≡ (contains seen a || any (λ c. contains c.commands a) checks)
unfolding add_checks
contains-add_checks seen [] a = ground arith
contains-add_checks seen (c ∷ cs) a =
    contains-add_checks (add_new seen c.commands) cs a
    ∙ ground (arith, contains-add_new seen c.commands a)

-- A command is in the list of a selection exactly if some check has it.
pub contains-commands_for :
    (checks : List Check) (a : String)
    → contains (commands_for checks) a ≡ any (λ c. contains c.commands a) checks
unfolding commands_for
contains-commands_for checks a = contains-add_checks [] checks a

Distinct-if :
    (seen : List String) (c : String)
    → Distinct seen
    → Distinct (if contains seen c then seen else seen ++ (c ∷ []))
Distinct-if seen c d = elim (Bool-cases (contains seen c)) [
  | inl e ↦ rw e d
  | inr e ↦ rw e (Distinct-append seen c d e)
]

Distinct-add_new : (seen cs : List String) → Distinct seen → Distinct (add_new seen cs)
unfolding add_new
Distinct-add_new seen [] d = d
Distinct-add_new seen (c ∷ cs) d =
    Distinct-add_new (if contains seen c then seen else seen ++ (c ∷ [])) cs (Distinct-if seen c d)

Distinct-add_checks :
    (seen : List String) (checks : List Check) → Distinct seen → Distinct (add_checks seen checks)
unfolding add_checks
Distinct-add_checks seen [] d = d
Distinct-add_checks seen (c ∷ cs) d =
    Distinct-add_checks (add_new seen c.commands) cs (Distinct-add_new seen c.commands d)

-- No command stands twice in the list of a selection.
pub commands_for-Distinct : (checks : List Check) → Distinct (commands_for checks)
unfolding commands_for
commands_for-Distinct checks = Distinct-add_checks [] checks tt

-- What a check needs to count as covered.
abbrev pub is_covered : Check → Bool
is_covered c =
    let kinds = or_empty c.evidence_types in
    not (is_empty c.commands)
    && (is_empty kinds || length kinds =? length c.commands)
    && all (contains kinds) (or_empty c.required_evidence_types)

is_empty-append_one : (xs : List String) (x : String) → is_empty (xs ++ (x ∷ [])) ≡ false
is_empty-append_one [] x = refl
is_empty-append_one (y ∷ ys) x = refl

is_empty-assign :
    (k : String) (v : List String) (d : List (String × List String))
    → is_empty (assign k v d) ≡ false
unfolding assign
is_empty-assign k v [] = refl
is_empty-assign k v ((j, w) ∷ d) = ground arith

scan_evidence_empty :
    (cs : List Check) (m : List String) (d : List (String × List String))
    → let r = scan_evidence cs m d in
      (is_empty r.0 && is_empty r.1) ≡ (
        is_empty m && is_empty d && all (λ c. not (is_malformed c) && is_empty (absent_kinds c)) cs)
unfolding scan_evidence
scan_evidence_empty [] m d = ground arith
scan_evidence_empty (c ∷ cs) m d = ground (
  arith,
  scan_evidence_empty cs (m ++ (c.id ∷ [])) d,
  scan_evidence_empty cs m d,
  scan_evidence_empty cs m (assign c.id (absent_kinds c) d),
  is_empty-append_one m c.id,
  is_empty-assign c.id (absent_kinds c) d,
)

is_empty-empty_ids :
    (cs : List Check) → is_empty (empty_ids cs) ≡ all (λ c. not (is_empty c.commands)) cs
unfolding empty_ids
is_empty-empty_ids [] = refl
is_empty-empty_ids (c ∷ cs) = ground (arith, is_empty-empty_ids cs)

is_empty-keep-not :
    (p : String → Bool) (xs : List String) → is_empty (keep (λ x. not (p x)) xs) ≡ all p xs
is_empty-keep-not p [] = refl
is_empty-keep-not p (x ∷ xs) = ground (arith, is_empty-keep-not p xs)

is_covered_lem :
    (c : Check)
    → is_covered c
      ≡ (not (is_empty c.commands) && not (is_malformed c) && is_empty (absent_kinds c))
unfolding is_malformed absent_kinds or_empty
is_covered_lem c = rw is_empty-sorted_set (
    ground (
      arith,
      is_empty-keep-not (contains (or_empty c.evidence_types)) (or_empty c.required_evidence_types),
    ))

all-is_covered :
    (cs : List Check)
    → all is_covered cs ≡ (
        all (λ c. not (is_empty c.commands)) cs
        && all (λ c. not (is_malformed c) && is_empty (absent_kinds c)) cs)
all-is_covered [] = refl
all-is_covered (c ∷ cs) = rw (is_covered_lem c) (ground (arith, all-is_covered cs))

-- The state of a selection that is not empty is `ready` if each check has commands, no kinds of evidence or
-- one for each command, and each kind that it requires; else it is `invalid_coverage`.
pub state-selection_status :
    (c : Check) (cs : List Check)
    → (selection_status (c ∷ cs)).state
      ≡ (if all is_covered (c ∷ cs) then ready else State.invalid_coverage)
unfolding selection_status
state-selection_status c cs =
    rw (all-is_covered (c ∷ cs))
      (ground (arith, scan_evidence_empty (c ∷ cs) [] [], is_empty-empty_ids (c ∷ cs)))

all-kept_kinds :
    (p : String → Bool) (leave cs kinds : List String)
    → all p kinds ≡ true
    → all p (kept_kinds leave cs kinds) ≡ true
unfolding kept_kinds
all-kept_kinds p leave [] kinds h = refl
all-kept_kinds p leave (c ∷ cs) [] h = refl
all-kept_kinds p leave (c ∷ cs) (k ∷ ks) h = ground (arith, all-kept_kinds p leave cs ks)

light-leave_check :
    (leave : List String) (c : Check)
    → length (or_empty c.evidence_types) ≡ length c.commands
    → all is_light (or_empty c.evidence_types) ≡ true
    → all is_light (or_empty (leave_check leave c).evidence_types) ≡ true
unfolding leave_check or_empty
light-leave_check leave c n h =
    ground (arith, all-kept_kinds is_light leave c.commands (or_empty c.evidence_types))

-- Where the number of test jobs is not one and the loop of `lease_weight` gives a selection the weight one,
-- it does so after commands are left to the required check.
pub lease_loop-leave_check :
    (leave : List String) (checks : List Check) (test_jobs : ℕ)
    → test_jobs ≢ 1
    → lease_loop checks test_jobs ≡ 1
    → lease_loop (map (leave_check leave) checks) test_jobs ≡ 1
unfolding lease_loop
lease_loop-leave_check leave [] test_jobs many h = refl
lease_loop-leave_check leave (c ∷ cs) test_jobs many h = ground (
  arith,
  lease_loop-leave_check leave cs test_jobs many,
  length-leave_check leave c,
  light-leave_check leave c,
)
