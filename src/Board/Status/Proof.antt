-- ===== src/Board/Status/Proof.antt =====
-- An entry is given up only on proof of its merge, and owns its paths only with its worktree and branch.
use mathlib.Core.Path.{subst}
use dev_platform.Base.{
  ℕ, ◌≡◌, refl, ◌∙◌, sym, ap, String, Bool, true, false, not, ◌||◌, Option, none, some, some_inj,
  ◌==◌, List, [], any, contains, is_empty, if◌then◌else◌, ◌⊎◌, inl, inr, Bool-cases, Option-cases,
  arith, and_right, true_not_false,
}
use dev_platform.Base.Json.{Json, Fields}
use dev_platform.Base.Result.{ok, >>=-eq-ok, ok-injective}
use dev_platform.Publication.ExactHead.{Found, HeadLookup, available, not_available}
use dev_platform.Board.Status.{
  Problem, worktree_missing, branch_path_mismatch, branch_missing, merged_branch, merged_pr,
  unproven_merge_no_base, unproven_merge_base_unknown, unproven_merge_no_own_commits,
  stale_heartbeat, is_terminal, Eligibility, terminal, valid_active, degraded, Entry, Reads,
  succeeded, confirms, is_checked_out, heartbeat_is_stale, find_exact_local_branch_pr,
  is_merged_lookup, head_of, known_list, exact_task_pr_is_merged, merged_or, moved_on, from_base,
  known_base, ancestor_merge_problem, merge_problem, branch_problem, worktree_problem,
  heartbeat_problem, with_problem, eligibility, status, claim_eligibility,
}

module _ (upper : String → String) (text_of : Json → String) where
  -- GitHub shows a merged pull request of the branch into the main branch with the branch's exact head.
  abbrev pub IsMergedExactly : Entry → String → Reads → Type 0
  IsMergedExactly item main_branch r =
      (found : Found) × (pr : Fields) × (find_exact_local_branch_pr upper text_of item.branch
          main_branch r
        ≡ some (available found))
      × (found.exact_merged ≡ some pr)

-- The branch is in the main branch and has moved on from its base, and its head came in as a merge's parent.
abbrev pub IsMergedBranch : Entry → Reads → Type 0
IsMergedBranch item r =
    (confirms r.merged_into ≡ ok true)
    × ((item.base_head == "") ≡ false)
    × (confirms r.base_commit ≡ ok true)
    × ((head : String) × (shas : List String) × (head_of r.branch_head ≡ ok head)
        × ((head == item.base_head) ≡ false)
        × (confirms r.base_ancestor ≡ ok true)
        × (r.first_parents ≡ some shas)
        × (contains shas head ≡ false))

-- The worktree is there with the branch checked out, the branch exists, and the heartbeat is fresh.
abbrev pub IsRegistered : (String → Option ℕ) → ℕ → Entry → Reads → Type 0
IsRegistered moment cutoff item r =
    (r.is_there ≡ true)
    × ((item.branch == "") ≡ false)
    × (is_checked_out r.show_current item.branch ≡ true)
    × (succeeded r.show_ref ≡ true)
    × (heartbeat_is_stale moment cutoff item.heartbeat ≡ false)

module _ (upper : String → String) (text_of : Json → String) (item : Entry) (main_branch : String)
    (r : Reads) where
  merged_lookup :
      (o : Option HeadLookup)
      → find_exact_local_branch_pr upper text_of item.branch main_branch r ≡ o
      → is_merged_lookup o ≡ true
      → IsMergedExactly upper text_of item main_branch r
  unfolding is_merged_lookup
  merged_lookup none e h = cc
  merged_lookup (some (not_available x)) e h = cc
  merged_lookup (some (available found)) e h = elim (Option-cases found.exact_merged) [
    | inl n ↦ absurd (true_not_false refl (rw n at h))
    | inr (pr, s) ↦ (found, pr, e, s)
  ]

  exactly :
      exact_task_pr_is_merged upper text_of item.branch main_branch r ≡ true
      → IsMergedExactly upper text_of item main_branch r
  unfolding exact_task_pr_is_merged
  exactly h = merged_lookup _ refl (and_right _ _ h)

  merged_or-IsMergedExactly :
      (other p : Problem)
      → is_terminal other ≡ false
      → merged_or upper text_of item.branch main_branch r other ≡ some p
      → is_terminal p ≡ true
      → IsMergedExactly upper text_of item main_branch r
  unfolding merged_or
  merged_or-IsMergedExactly other p o h t =
      chosen (exact_task_pr_is_merged upper text_of item.branch main_branch r) refl h
    where
      chosen :
          (b : Bool)
          → exact_task_pr_is_merged upper text_of item.branch main_branch r ≡ b
          → (if b then some merged_pr else some other) ≡ some p
          → IsMergedExactly upper text_of item main_branch r
      chosen true e k = exactly e
      chosen false e k =
          absurd (true_not_false o (subst (λ q. is_terminal q ≡ true) (sym (some_inj k)) t))

  abbrev IsProved : Type 0
  IsProved = IsMergedExactly upper text_of item main_branch r ⊎ IsMergedBranch item r

  no_own_commits : is_terminal unproven_merge_no_own_commits ≡ false
  unfolding is_terminal
  no_own_commits = refl

  no_base : is_terminal unproven_merge_no_base ≡ false
  unfolding is_terminal
  no_base = refl

  base_unknown : is_terminal unproven_merge_base_unknown ≡ false
  unfolding is_terminal
  base_unknown = refl

  moved_on-IsProved :
      (head : String) (b : Bool) (p : Problem)
      → moved_on upper text_of item.branch main_branch r head b ≡ ok (some p)
      → is_terminal p ≡ true
      → IsMergedExactly upper text_of item main_branch r
        ⊎ ((b ≡ true)
            × ((shas : List String) × (r.first_parents ≡ some shas) × (contains shas head ≡ false)))
  unfolding moved_on
  moved_on-IsProved head false p h t =
      inl (
        merged_or-IsMergedExactly unproven_merge_no_own_commits p no_own_commits (ok-injective h) t)
  moved_on-IsProved head true p h t =
      let (shas, e, k) = >>=-eq-ok (known_list r.first_parents) _ h in
      on_line shas (parents r.first_parents e) (contains shas head) refl (ok-injective k)
    where
      parents :
          (o : Option (List String)) {shas : List String} → known_list o ≡ ok shas → o ≡ some shas
      parents none e = cc
      parents (some shas) e = ap some (ok-injective e)

      on_line :
          (shas : List String)
          → r.first_parents ≡ some shas
          → (c : Bool) → contains shas head ≡ c
          → (if c
              then merged_or upper text_of item.branch main_branch r unproven_merge_no_own_commits
              else some merged_branch)
            ≡ some p
          → IsMergedExactly upper text_of item main_branch r
            ⊎ ((true ≡ true)
                × ((shas : List String) × (r.first_parents ≡ some shas)
                    × (contains shas head ≡ false)))
      on_line shas f true c k =
          inl (merged_or-IsMergedExactly unproven_merge_no_own_commits p no_own_commits k t)
      on_line shas f false c k = inr (refl, (shas, f, c))

  ancestor-IsProved :
      (bare : Bool) (p : Problem)
      → (item.base_head == "") ≡ bare
      → confirms r.merged_into ≡ ok true
      → ancestor_merge_problem upper text_of item.base_head item.branch main_branch r bare
        ≡ ok (some p)
      → is_terminal p ≡ true
      → IsProved
  unfolding ancestor_merge_problem known_base from_base
  ancestor-IsProved true p e m h t =
      inl (merged_or-IsMergedExactly unproven_merge_no_base p no_base (ok-injective h) t)
  ancestor-IsProved false p e m h t =
      let (is_commit, f, k) = >>=-eq-ok (confirms r.base_commit) _ h in based is_commit f k
    where
      off_base :
          (head : String) (at : Bool)
          → (head == item.base_head) ≡ at
          → confirms r.base_commit ≡ ok true
          → head_of r.branch_head ≡ ok head
          → from_base upper text_of item.base_head item.branch main_branch r head at ≡ ok (some p)
          → IsProved
      off_base head true g c f k = cc
      off_base head false g c f k =
          let (is_ancestor, a, n) = >>=-eq-ok (confirms r.base_ancestor) _ k in
          elim (moved_on-IsProved head is_ancestor p n t) [
            | inl exact ↦ inl exact
            | inr (on_base, (shas, parents, missing)) ↦
                inr (m, e, c, (head, shas, f, g, a ∙ ap ok on_base, parents, missing))
          ]

      based :
          (is_commit : Bool)
          → confirms r.base_commit ≡ ok is_commit
          → known_base upper text_of item.base_head item.branch main_branch r is_commit
            ≡ ok (some p)
          → IsProved
      based false f k = absurd (
          true_not_false base_unknown
            (subst (λ q. is_terminal q ≡ true) (sym (some_inj (ok-injective k))) t))
      based true f k =
          let (head, g, n) = >>=-eq-ok (head_of r.branch_head) _ k in
          off_base head (head == item.base_head) refl f g n

  merge_problem-IsProved :
      (merged : Bool) (p : Problem)
      → confirms r.merged_into ≡ ok merged
      → merge_problem upper text_of item.base_head item.branch main_branch r merged ≡ ok (some p)
      → is_terminal p ≡ true
      → IsProved
  unfolding merge_problem
  merge_problem-IsProved true p m h t = ancestor-IsProved _ p refl m h t
  merge_problem-IsProved false p m h t =
      squashed (exact_task_pr_is_merged upper text_of item.branch main_branch r) refl
        (ok-injective h)
    where
      squashed :
          (b : Bool)
          → exact_task_pr_is_merged upper text_of item.branch main_branch r ≡ b
          → (if b then some merged_pr else none) ≡ some p
          → IsProved
      squashed true e k = inl (exactly e)
      squashed false e k = cc

  branch_problem-IsProved :
      (p : Problem)
      → branch_problem upper text_of item main_branch r ≡ ok (some p)
      → is_terminal p ≡ true
      → IsProved
  unfolding branch_problem is_terminal
  branch_problem-IsProved p h t =
      elim (Bool-cases (item.branch == "" || not (succeeded r.show_ref))) [
        | inl e ↦ absurd (missing_stays (some_inj (ok-injective (rw e at h))))
        | inr e ↦ elim (Bool-cases (item.branch == main_branch)) [
          | inl f ↦ absurd (nothing (ok-injective (rw (e, f) at h)))
          | inr f ↦
              let (merged, m, k) = >>=-eq-ok (confirms r.merged_into) _ (rw (e, f) at h) in
              merge_problem-IsProved merged p m k t
        ]
      ]
    where
      missing_stays : branch_missing ≡ p → ⊥
      missing_stays k = true_not_false refl (subst (λ q. is_terminal q ≡ true) (sym k) t)

      nothing : ◌≡◌ {A = Option Problem} none (some p) → ⊥
      nothing k = cc

worktree_problem-stays :
    (item : Entry) (r : Reads) (p : Problem)
    → worktree_problem item r ≡ some p
    → is_terminal p ≡ false
unfolding worktree_problem is_terminal
worktree_problem-stays item r p h =
    stays (item.worktree == "" || not r.is_there)
      (item.branch == "" || is_checked_out r.show_current item.branch) h
  where
    stays :
        (a b : Bool)
        → (if a then some worktree_missing else if b then none else some branch_path_mismatch)
          ≡ some p
        → is_terminal p ≡ false
    stays true b k = subst (λ q. is_terminal q ≡ false) (some_inj k) refl
    stays false true k = cc
    stays false false k = subst (λ q. is_terminal q ≡ false) (some_inj k) refl

heartbeat_problem-stays :
    (moment : String → Option ℕ) (cutoff : ℕ) (item : Entry) (p : Problem)
    → heartbeat_problem moment cutoff item ≡ some p
    → is_terminal p ≡ false
unfolding heartbeat_problem is_terminal
heartbeat_problem-stays moment cutoff item p h =
    stays (heartbeat_is_stale moment cutoff item.heartbeat) h
  where
    stays : (b : Bool) → (if b then some stale_heartbeat else none) ≡ some p → is_terminal p ≡ false
    stays true k = subst (λ q. is_terminal q ≡ false) (some_inj k) refl
    stays false k = cc

passes_over :
    (o : Option Problem) (ps : List Problem)
    → ((p : Problem) → o ≡ some p → is_terminal p ≡ false)
    → any is_terminal (with_problem o ps) ≡ any is_terminal ps
unfolding with_problem
passes_over none ps f = refl
passes_over (some p) ps f = rw (f p refl) refl

-- Only the problem in the middle can be terminal.
middle_terminal :
    (b c : Option Problem)
    → ((p : Problem) → c ≡ some p → is_terminal p ≡ false)
    → any is_terminal (with_problem b (with_problem c [])) ≡ true
    → (p : Problem) × (b ≡ some p) × (is_terminal p ≡ true)
unfolding with_problem
middle_terminal none c g h = absurd (true_not_false (passes_over c [] g) h)
middle_terminal (some p) c g h = (p, refl, left_true (passes_over c [] g) h)
  where
    left_true : {a b : Bool} → b ≡ false → (a || b) ≡ true → a ≡ true
    left_true e k = ground arith

-- Without problems, the worktree, the branch and the heartbeat are as an active task has them.
no_problem :
    (moment : String → Option ℕ) (cutoff : ℕ) (item : Entry) (r : Reads) (b : Option Problem)
    → is_empty (
        with_problem
          (worktree_problem item r)
          (with_problem b (with_problem (heartbeat_problem moment cutoff item) [])))
      ≡ true
    → (worktree_problem item r ≡ none) × (b ≡ none) × (heartbeat_problem moment cutoff item ≡ none)
unfolding with_problem
no_problem moment cutoff item r b h =
    go (worktree_problem item r) b (heartbeat_problem moment cutoff item) h
  where
    go :
        (x y z : Option Problem)
        → is_empty (with_problem x (with_problem y (with_problem z []))) ≡ true
        → (x ≡ none) × (y ≡ none) × (z ≡ none)
    go none none none k = (refl, refl, refl)
    go none none (some p) k = cc
    go none (some p) z k = cc
    go (some p) y z k = cc

worktree_fine :
    (item : Entry) (r : Reads)
    → worktree_problem item r ≡ none
    → (r.is_there ≡ true)
      × (((item.branch == "") ≡ true) ⊎ (is_checked_out r.show_current item.branch ≡ true))
unfolding worktree_problem
worktree_fine item r h =
    fine (item.worktree == "") r.is_there (item.branch == "")
      (is_checked_out r.show_current item.branch) h
  where
    fine :
        (a there b c : Bool)
        → (if a || not there
            then some worktree_missing
            else if b || c
            then none
            else some branch_path_mismatch)
          ≡ none
        → (there ≡ true) × ((b ≡ true) ⊎ (c ≡ true))
    fine true there b c k = cc
    fine false false b c k = cc
    fine false true true c k = (refl, inl refl)
    fine false true false true k = (refl, inr refl)
    fine false true false false k = cc

branch_there :
    (upper : String → String) (text_of : Json → String) (item : Entry) (main_branch : String)
    (r : Reads)
    → branch_problem upper text_of item main_branch r ≡ ok none
    → ((item.branch == "") ≡ false) × (succeeded r.show_ref ≡ true)
unfolding branch_problem
branch_there upper text_of item main_branch r h =
    elim (Bool-cases (item.branch == "" || not (succeeded r.show_ref))) [
      | inl e ↦ absurd (not_none (ok-injective (rw e at h)))
      | inr e ↦ parts (item.branch == "") (succeeded r.show_ref) e
    ]
  where
    not_none : ◌≡◌ {A = Option Problem} (some branch_missing) none → ⊥
    not_none k = cc

    parts : (a b : Bool) → (a || not b) ≡ false → (a ≡ false) × (b ≡ true)
    parts false true k = (refl, refl)
    parts false false k = cc
    parts true b k = cc

heartbeat_fresh :
    (moment : String → Option ℕ) (cutoff : ℕ) (item : Entry)
    → heartbeat_problem moment cutoff item ≡ none
    → heartbeat_is_stale moment cutoff item.heartbeat ≡ false
unfolding heartbeat_problem
heartbeat_fresh moment cutoff item h = fresh (heartbeat_is_stale moment cutoff item.heartbeat) h
  where
    fresh : (b : Bool) → (if b then some stale_heartbeat else none) ≡ none → b ≡ false
    fresh true k = cc
    fresh false k = refl

eligibility-cases :
    (problems : List Problem)
    → (eligibility problems ≡ terminal → any is_terminal problems ≡ true)
      × (eligibility problems ≡ valid_active → is_empty problems ≡ true)
unfolding eligibility
eligibility-cases problems = go (any is_terminal problems) (is_empty problems)
  where
    go :
        (a b : Bool)
        → ((if a then terminal else if b then valid_active else degraded) ≡ terminal → a ≡ true)
          × ((if a then terminal else if b then valid_active else degraded) ≡ valid_active
              → b ≡ true)
    go true b = ((λ k. refl), (λ k. cc))
    go false true = ((λ k. cc), (λ k. refl))
    go false false = ((λ k. cc), (λ k. cc))

-- Where an entry of the board is classified: it is terminal only where the lookup of its branch's head
-- shows an exact merged pull request, or where its branch is in the main branch, its base is recorded and a
-- commit, its head is another commit that descends from the base, and main's first parents since the base
-- do not have that head. It is active only where its worktree is there with its branch checked out, the
-- branch exists, and the heartbeat is fresh.
pub claim_eligibility-IsProved :
    (upper : String → String) (text_of : Json → String) (moment : String → Option ℕ) (cutoff : ℕ)
    (item : Entry) (main_branch : String) (r : Reads) (e : Eligibility) (problems : List Problem)
    → claim_eligibility upper text_of moment cutoff item main_branch r ≡ ok (e, problems)
    → (e ≡ terminal → IsMergedExactly upper text_of item main_branch r ⊎ IsMergedBranch item r)
      × (e ≡ valid_active → IsRegistered moment cutoff item r)
unfolding claim_eligibility status
claim_eligibility-IsProved upper text_of moment cutoff item main_branch r e problems h =
    let (found, s, k) = >>=-eq-ok (status upper text_of moment cutoff item main_branch r) _ h in
    let (problem, b, n) = >>=-eq-ok (branch_problem upper text_of item main_branch r) _ s in
    let same = ap (λ p. p.0) (ok-injective k) in
    let problems_eq = ok-injective n in
    let (ended, active) = eligibility-cases found in
    (
      (λ t.
          let any_left = ap (any is_terminal) problems_eq ∙ ended (same ∙ t) in
          let (p, q, stops) =
            middle_terminal problem (heartbeat_problem moment cutoff item)
              (heartbeat_problem-stays moment cutoff item)
              (sym (passes_over (worktree_problem item r) _ (worktree_problem-stays item r))
                ∙ any_left) in
          branch_problem-IsProved upper text_of item main_branch r p (b ∙ ap ok q) stops),
      (λ t.
          let (w, q, beat) =
            no_problem moment cutoff item r problem (ap is_empty problems_eq ∙ active (same ∙ t)) in
          let (there, out) = worktree_fine item r w in
          let (named, exists) = branch_there upper text_of item main_branch r (b ∙ ap ok q) in
          (there, named, checked named out, exists, heartbeat_fresh moment cutoff item beat)),
    )
  where
    checked :
        (item.branch == "") ≡ false
        → ((item.branch == "") ≡ true) ⊎ (is_checked_out r.show_current item.branch ≡ true)
        → is_checked_out r.show_current item.branch ≡ true
    checked f (inl t) = absurd (true_not_false f t)
    checked f (inr c) = c
