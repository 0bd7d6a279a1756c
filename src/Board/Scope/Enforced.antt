-- ===== src/Board/Scope/Enforced.antt =====
-- Work that passes the scope gate owns its paths alone, up to what is declared generated and what it has
-- acknowledged.
use mathlib.Core.Path.{subst}
use dev_platform.Base.{
  ℕ, ◌≡◌, refl, ap, sym, ◌∙◌, ◌==◌, Bool-cases, inl, inr, String, true, Option, none, some, List,
  [], ◌∷◌, map, is_empty, All,
}
use dev_platform.Base.Json.{Json, null, bool, int, float, str, arr, obj, Fields, lookup}
use dev_platform.Base.Result.{ok, err-ok, >>=-eq-ok, ok-injective}
use dev_platform.Board.{Conflict}
use dev_platform.Board.Admission.{IsFree, admission_conflicts-IsFree}
use dev_platform.Board.Registry.{Task, Claims, find_item, without}
use dev_platform.Board.Scope.{
  BoardFile, unnamed, nowhere, unreadable, no_object, no_items, holds, scope_gate_required,
  items_of, current_of, main_branch_of, Inputs, overlap_result, required_scope_inputs, conflicts_of,
  conflicts_if, hard_scope_conflicts, enforce_scope_gate,
}

held : (file : BoardFile) {items : List Task} → items_of file ≡ ok items → file ≡ holds items
unfolding items_of
held unnamed h = cc
held nowhere h = cc
held unreadable h = cc
held no_object h = cc
held no_items h = cc
held (holds items) h = ap holds (ok-injective h)

placed : (o : Option (ℕ × Task)) {place : ℕ × Task} → current_of o ≡ ok place → o ≡ some place
unfolding current_of
placed none h = cc
placed (some place) h = ap some (ok-injective h)

no_conflict : (cs : List Conflict) {u : Unit} → overlap_result cs ≡ ok u → is_empty cs ≡ true
unfolding overlap_result
no_conflict [] h = refl
no_conflict (c ∷ cs) h = cc

main_of : (j : Option Json) {s : String} → main_branch_of j ≡ ok s → j ≡ some (str s)
unfolding main_branch_of
main_of none h = cc
main_of (some null) h = cc
main_of (some (bool b)) h = cc
main_of (some (int n)) h = cc
main_of (some (float x)) h = cc
main_of (some (arr xs)) h = cc
main_of (some (obj fs)) h = cc
main_of (some (str t)) h = elim (Bool-cases (t == "")) [
  | inl e ↦ absurd (err-ok (rw e at h))
  | inr e ↦ ap (λ u. some (str u)) (ok-injective (rw e at h))
]

module _ (resolve : String → String) (claims : String → Claims) (limit : ℕ) where
  -- The board was read, the task has an entry, and each path that it shares with another
  -- entry is declared generated or acknowledged.
  abbrev pub IsAlone : String → String → Fields → BoardFile → Type 0
  IsAlone worktree branch config file =
      (items : List Task) × (n : ℕ) × (current : Task) × (main : String) × (file ≡ holds items)
      × (lookup "main_branch" config ≡ some (str main))
      × (find_item resolve worktree branch items ≡ some (n, current))
      × All (IsFree ((claims main).asking current)) (map (claims main).item (without n items))

  inputs-IsAlone :
      (worktree branch : String) (config : Fields) (file : BoardFile) (inputs : Inputs)
      → required_scope_inputs resolve claims limit worktree branch config file ≡ ok inputs
      → is_empty (conflicts_of resolve claims limit inputs) ≡ true
      → IsAlone worktree branch config file
  unfolding required_scope_inputs conflicts_of
  inputs-IsAlone worktree branch config file (items, (n, (current, main))) h e =
      let (found, i, k) = >>=-eq-ok (items_of file) _ h in
      let (named, a, b) = >>=-eq-ok (main_branch_of (lookup "main_branch" config)) _ k in
      let (place, p, m) = >>=-eq-ok (current_of (find_item resolve worktree branch found)) _ b in
      let same = ok-injective m in
      (
        items,
        n,
        current,
        main,
        held file i ∙ ap holds (ap (λ s. s.0) same),
        main_of _ a ∙ ap (λ s. some (str s.1.1.1)) same,
        subst (λ s. find_item resolve worktree branch s.0 ≡ some (s.1.0, s.1.1.0)) same
            (placed _ p),
        admission_conflicts-IsFree limit _ _ e,
      )

  -- Where the project requires the scope gate and work passes it, the board was read, the main branch is
  -- configured, the board has an entry of the worktree and the branch, and each path that is a candidate of
  -- this entry and not declared generated, and that another active entry owns, of another worktree and
  -- another branch, is acknowledged.
  pub enforce_scope_gate-IsAlone :
      (worktree branch : String) (config : Fields) (file : BoardFile)
      → scope_gate_required config ≡ ok true
      → enforce_scope_gate resolve claims limit worktree branch config file ≡ ok tt
      → IsAlone worktree branch config file
  unfolding enforce_scope_gate hard_scope_conflicts conflicts_if
  enforce_scope_gate-IsAlone worktree branch config file required h =
      let (conflicts, i, k) = >>=-eq-ok _ _ h in
      let (needed, r, j) = >>=-eq-ok (scope_gate_required config) _ i in
      let asked =
        subst (λ b. conflicts_if resolve claims limit worktree branch config file b ≡ ok conflicts)
          (ok-injective (sym r ∙ required)) j in
      let (inputs, p, q) =
        >>=-eq-ok (required_scope_inputs resolve claims limit worktree branch config file) _
          asked in
      inputs-IsAlone worktree branch config file inputs p
        (ap is_empty (ok-injective q) ∙ no_conflict conflicts k)
