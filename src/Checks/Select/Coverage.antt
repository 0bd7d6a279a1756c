-- ===== src/Checks/Select/Coverage.antt =====
-- No changed path escapes the selection: it is listed by a selected check, or the full set runs.
use mathlib.Core.List.{append-nil, append_assoc}
use mathlib.Core.Path.{subst}
use dev_platform.Base.{
  sym, String, ◌≡◌, refl, ◌∙◌, Bool, true, false, not, ◌||◌, ◌==◌, eq_iff, ◌⊎◌, inl, inr,
}
use dev_platform.Base.{
  List, [], ◌∷◌, ◌++◌, Option, none, some, arith, keep, contains, is_empty, Some,
}
use dev_platform.Base.{contains-append, contains-keep, if◌then◌else◌, Bool-cases}
use dev_platform.Base.Result.{Result, ok, err, ◌>>=◌, ok-injective}
use dev_platform.Checks.Config.{
  Rule, Config, Check, Reason, SelectError, unknown_path, no_full_commands,
}
use dev_platform.Checks.Select.{Selection, match_rules, note_unmatched, select_paths, start}
use dev_platform.Checks.Select.{full_check, full_selection, select_loop}
use dev_platform.Checks.Select.{behavior_check, select_undeclared, select_behavior, select_mapped}
use dev_platform.Checks.Select.{instruction_behavior_surface_paths, behavioral_evidence_commands}
use dev_platform.Checks.Select.{full_trigger_paths}
use dev_platform.Checks.Select.Loop.{has_id, listed, some_rule_matches, IsTracked}
use dev_platform.Checks.Select.Loop.{match_rules-IsTracked, flag-match_rules, unknown-match_rules}
use dev_platform.Checks.Select.Loop.{listed-match_rules}

keep_singleton-append {ℓ} :
    {A : Type ℓ} (p : A → Bool) (x : A) (xs : List A)
    → keep p (x ∷ []) ++ keep p xs ≡ keep p (x ∷ xs)
keep_singleton-append p x xs =
    elim (p x)
      as (λ b. (if b then x ∷ [] else []) ++ keep p xs ≡ (if b then x ∷ keep p xs else keep p xs)) [
        | true ↦ refl
        | false ↦ refl
      ]

module _ (fnmatch : String → String → Bool) (rules : List (String × Rule)) where
  abbrev after_path : String → Selection → Selection
  after_path path s = note_unmatched path (match_rules fnmatch path rules (false, s))

  abbrev held : String → Selection → Bool
  held q s = listed q s.selected || contains s.unknown q

  note_unmatched-held :
      (path q : String) (m : Bool) (s : Selection)
      → (m ≡ true → listed q s.selected ≡ true)
      → (m ≡ false → q ≡ path)
      → held q (note_unmatched path (m, s)) ≡ true
  unfolding note_unmatched
  note_unmatched-held path q true s h k = ground (arith, h refl)
  note_unmatched-held path q false s h k =
      ground (arith, k refl, eq_iff q path, contains-append s.unknown (path ∷ []) q)

  note_unmatched-held_of :
      (path q : String) (m : Bool) (s : Selection)
      → held q s ≡ true
      → held q (note_unmatched path (m, s)) ≡ true
  unfolding note_unmatched
  note_unmatched-held_of path q true s h = h
  note_unmatched-held_of path q false s h = ground (arith, contains-append s.unknown (path ∷ []) q)

  seen-note_unmatched :
      (path : String) (m : Bool) (s : Selection)
      → ((i : String) → contains s.seen i ≡ true → has_id i s.selected ≡ true)
      → let t = note_unmatched path (m, s) in
        (i : String) → contains t.seen i ≡ true → has_id i t.selected ≡ true
  unfolding note_unmatched
  seen-note_unmatched path true s h = h
  seen-note_unmatched path false s h = h

  unknown-note_unmatched :
      (path : String) (m : Bool) (s : Selection)
      → (note_unmatched path (m, s)).unknown ≡ s.unknown ++ keep (λ _. not m) (path ∷ [])
  unfolding note_unmatched
  unknown-note_unmatched path true s = rw append-nil
  unknown-note_unmatched path false s = refl

  IsTracked-start :
      (path : String) (s : Selection)
      → ((i : String) → contains s.seen i ≡ true → has_id i s.selected ≡ true)
      → IsTracked path false s
  IsTracked-start path s h = record { seen_selected = h; listed_path = λ e. cc }

  held-after_path_self :
      (path : String) (s : Selection)
      → ((i : String) → contains s.seen i ≡ true → has_id i s.selected ≡ true)
      → held path (after_path path s) ≡ true
  held-after_path_self path s h =
      note_unmatched-held path path _ _
        (match_rules-IsTracked fnmatch path rules false s (IsTracked-start path s h)).listed_path
        (λ _. refl)

  held-match_rules :
      (path q : String) (s : Selection)
      → held q s ≡ true
      → held q (match_rules fnmatch path rules (false, s)).1 ≡ true
  held-match_rules path q s h = ground (
    arith,
    unknown-match_rules fnmatch path rules false s,
    listed-match_rules fnmatch path rules false s q,
  )

  held-after_path :
      (path q : String) (s : Selection) → held q s ≡ true → held q (after_path path s) ≡ true
  held-after_path path q s h = note_unmatched-held_of path q _ _ (held-match_rules path q s h)

  held-select_paths_of :
      (paths : List String) (s : Selection) (q : String)
      → held q s ≡ true
      → held q (select_paths fnmatch rules paths s) ≡ true
  unfolding select_paths
  held-select_paths_of [] s q h = h
  held-select_paths_of (path ∷ paths) s q h =
      held-select_paths_of paths (after_path path s) q (held-after_path path q s h)

  pub held-select_paths :
      (paths : List String) (s : Selection) (q : String)
      → ((i : String) → contains s.seen i ≡ true → has_id i s.selected ≡ true)
      → contains paths q ≡ true
      → held q (select_paths fnmatch rules paths s) ≡ true
  unfolding select_paths
  held-select_paths [] s q h m = cc
  held-select_paths (path ∷ paths) s q h m = elim (Bool-cases (q == path)) [
    | inl e ↦
        held-select_paths_of paths (after_path path s) q
          (rw ((eq_iff q path).0 e) (held-after_path_self path s h))
    | inr e ↦
        held-select_paths paths (after_path path s) q
          (seen-note_unmatched path _ _
            (match_rules-IsTracked fnmatch path rules false s
              (IsTracked-start path s h)).seen_selected)
          (ground arith)
  ]

  abbrev pub unmatched : List String → List String
  unmatched = keep (λ path. not (some_rule_matches fnmatch rules path))

  unknown-after_path :
      (path : String) (s : Selection)
      → (after_path path s).unknown ≡ s.unknown ++ unmatched (path ∷ [])
  unknown-after_path path s =
      unknown-note_unmatched path _ _
      ∙ rw (
        unknown-match_rules fnmatch path rules false s,
        flag-match_rules fnmatch path rules false s,
      )

  pub unknown-select_paths :
      (paths : List String) (s : Selection)
      → (select_paths fnmatch rules paths s).unknown ≡ s.unknown ++ unmatched paths
  unfolding select_paths
  unknown-select_paths [] s = rw append-nil
  unknown-select_paths (path ∷ paths) s =
      unknown-select_paths paths (after_path path s)
      ∙ rw (unknown-after_path, append_assoc, keep_singleton-append)

abbrev RunsFull : Config → List Check → Type 0
RunsFull config checks = Some (λ c. c.commands ≡ config.settings.full_commands) checks

-- The full selection is one check that holds the full commands, or the error that there are none.
pub full_selection_cases :
    (config : Config) (r : Reason) (id : String) (ps : List String)
    → (full_selection config r id ps ≡ err no_full_commands)
      ⊎ ((c : Check) × (full_selection config r id ps ≡ ok (c ∷ []))
          × (c.commands ≡ config.settings.full_commands)
          × (c.selection_reason ≡ some r))
unfolding full_selection
full_selection_cases config r id ps = elim (Bool-cases (is_empty config.settings.full_commands)) [
  | inl e ↦ inl (rw e)
  | inr e ↦ inr (record (full_check config r) { id = id; paths = ps }, rw e, refl, refl)
]

full_selection-RunsFull :
    (config : Config) (r : Reason) (id : String) (ps : List String) {checks : List Check}
    → full_selection config r id ps ≡ ok checks
    → RunsFull config checks
full_selection-RunsFull config r id ps h = elim (full_selection_cases config r id ps) [
  | inl e ↦ absurd (cc (e, h))
  | inr (c, e, runs, _) ↦ subst (RunsFull config) (ok-injective (sym e ∙ h)) (inl runs)
]

module _ (fnmatch : String → String → Bool) (config : Config) where
  abbrev pub Covered : String → List Check → Type 0
  Covered q checks = (listed q checks ≡ true) ⊎ RunsFull config checks

  Covered-loop :
      (q : String) (s : Selection) {checks : List Check}
      → held fnmatch config.checks q s ≡ true
      → (if is_empty s.unknown
          then ok s.selected
          else full_selection config unknown_path "full-fallback" s.unknown)
        ≡ ok checks
      → Covered q checks
  Covered-loop q s k h = elim (Bool-cases (is_empty s.unknown)) [
    | inl e ↦ inl (subst (λ cs. listed q cs ≡ true) (ok-injective (rw e at h)) (ground arith))
    | inr e ↦
        inr (full_selection-RunsFull config unknown_path "full-fallback" s.unknown (rw e at h))
  ]

  select_loop-Covered :
      (paths : List String) (q : String) {checks : List Check}
      → select_loop fnmatch config paths ≡ ok checks
      → contains paths q ≡ true
      → Covered q checks
  unfolding select_loop
  select_loop-Covered paths q h m =
      Covered-loop q (select_paths fnmatch config.checks paths start)
        (held-select_paths fnmatch config.checks paths start q (λ i e. cc) m) h

  select_undeclared-Covered :
      (paths : List String) (q : String) {checks : List Check}
      → select_undeclared fnmatch config paths ≡ ok checks
      → contains paths q ≡ true
      → Covered q checks
  unfolding select_undeclared
  select_undeclared-Covered paths q h m =
      elim (Bool-cases (is_empty (full_trigger_paths fnmatch config paths))) [
        | inl e ↦ select_loop-Covered paths q (rw e at h) m
        | inr e ↦ inr (full_selection-RunsFull config _ _ _ (rw e at h))
      ]

  behavior-Covered :
      (behavior commands : List String) (q : String) (rest : List Check)
      → (contains behavior q ≡ false → Covered q rest)
      → Covered q (behavior_check behavior commands ∷ rest)
  unfolding behavior_check
  behavior-Covered behavior commands q rest k = elim (Bool-cases (contains behavior q)) [
    | inl here ↦ inl (ground arith)
    | inr elsewhere ↦ elim (k elsewhere) [ inl h ↦ inl (ground arith) | inr h ↦ inr (inr h) ]
  ]

  after_behavior-Covered :
      (behavior commands : List String) (q : String) (r : Result SelectError (List Check))
      → ((rest : List Check) → r ≡ ok rest → contains behavior q ≡ false → Covered q rest)
      → {checks : List Check}
      → (r >>= λ rest. ok (behavior_check behavior commands ∷ rest)) ≡ ok checks
      → Covered q checks
  after_behavior-Covered behavior commands q (ok rest) k h =
      subst (Covered q) (ok-injective h) (behavior-Covered behavior commands q rest (k rest refl))
  after_behavior-Covered behavior commands q (err e) k h = cc

  select_behavior-Covered :
      (paths behavior : List String) (runtime q : String) {checks : List Check}
      → select_behavior fnmatch config paths behavior runtime ≡ ok checks
      → contains paths q ≡ true
      → Covered q checks
  unfolding select_behavior
  select_behavior-Covered paths behavior runtime q h m =
      let commands = behavioral_evidence_commands config.behavioral_evidence runtime in
      let others = λ (path : String). not (contains behavior path) in
      elim (Bool-cases (is_empty commands)) [
        | inl e ↦ inr (full_selection-RunsFull config _ _ _ (rw e at h))
        | inr e ↦
            after_behavior-Covered behavior commands q
              (select_undeclared fnmatch config (keep others paths))
              (λ rest found elsewhere.
                select_undeclared-Covered (keep others paths) q found
                  (contains-keep others paths q ∙ ground arith))
              (rw e at h)
      ]

  -- Where `select_mapped` returns checks, each of the paths is listed by one of them, or one of them runs
  -- the full set's commands.
  pub select_mapped-Covered :
      (paths : List String) (declared : Option String) (q : String) {checks : List Check}
      → select_mapped fnmatch config paths declared ≡ ok checks
      → contains paths q ≡ true
      → Covered q checks
  unfolding select_mapped
  select_mapped-Covered paths none q h m = select_undeclared-Covered paths q h m
  select_mapped-Covered paths (some runtime) q h m =
      let behavior = instruction_behavior_surface_paths fnmatch config paths in
      elim (Bool-cases (
        not (is_empty (full_trigger_paths fnmatch config paths))
        || runtime == ""
        || is_empty behavior)) [
          | inl e ↦ select_undeclared-Covered paths q (rw e at h) m
          | inr e ↦ select_behavior-Covered paths behavior runtime q (rw e at h) m
        ]

  -- Where no path is a full trigger and some paths match no rule, the selection is the full set, which
  -- lists exactly the paths that match no rule.
  pub select_undeclared-unmatched :
      (paths : List String)
      → is_empty (full_trigger_paths fnmatch config paths) ≡ true
      → is_empty (unmatched fnmatch config.checks paths) ≡ false
      → select_undeclared fnmatch config paths
        ≡ full_selection config unknown_path "full-fallback" (unmatched fnmatch config.checks paths)
  unfolding select_undeclared select_loop
  select_undeclared-unmatched paths quiet some_unmatched =
      rw (quiet, unknown-select_paths fnmatch config.checks paths start, some_unmatched)
