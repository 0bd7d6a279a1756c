-- ===== src/Rollout/Identity/Boundary.antt =====
-- What `eligible_rollout_prs` returns: pull requests that cross the trust boundary, each of them, in order.
use dev_platform.Base.{
  ℕ, String, ◌≡◌, refl, sym, ap, ◌∙◌, true, Option, Bool, none, some, ◌&&◌, arith, List, [], ◌∷◌,
}
use dev_platform.Base.{Option-cases, Bool-cases, Some, All, some_inj, inl, inr}
use mathlib.Core.Path.{subst}
use dev_platform.Base.Json.{ℤ, Fields, lookup, as_text}
use dev_platform.Rollout.Version.{Version, parse_version}
use dev_platform.Rollout.Identity.{
  RolloutPr, after_prefix, rollout_prefix, sub_fields, as_int, exact, exact_version, matched,
  match_branch, match_ref, described, crosses, has_text,
}
use dev_platform.Rollout.Identity.{eligible_pr, collect_eligible, eligible_rollout_prs}
use dev_platform.Rollout.Identity.Order.{Exact, Ascending, All-sort_prs, Ascending-sort_prs}

all_three : (a b c : Bool) → (a && (b && c)) ≡ true → (a ≡ true) × (b ≡ true) × (c ≡ true)
all_three a b c h = (ground arith, ground arith, ground arith)

some-none : {A : Type 0} {a : A} → none ≡ some a → ⊥
some-none h = cc

described-eq-some :
    (b v sha : String) (n : Option ℤ) (u : Option String) (p : RolloutPr)
    → described b v sha n u ≡ some p
    → (b ≡ p.branch) × (v ≡ p.version) × (n ≡ some p.number) × (u ≡ some p.url)
unfolding described
described-eq-some b v sha none u p h = cc
described-eq-some b v sha (some n) none p h = cc
described-eq-some b v sha (some n) (some u) p h = (
  ap (λ q. q.branch) (some_inj h),
  ap (λ q. q.version) (some_inj h),
  ap (λ q. some q.number) (some_inj h),
  ap (λ q. some q.url) (some_inj h),
)

module _ (digit : ℕ → Option ℕ) (repository base_branch expected_bot : String) where
  -- The pull request `p` is `pr`, which has the base branch, the author and the head's repository asked for, and
  -- the reserved branch of an exact version.
  abbrev pub Is : RolloutPr → Fields → Type 0
  Is p pr =
      (has_text "ref" base_branch (sub_fields "base" pr) ≡ true)
      × (has_text "login" expected_bot (sub_fields "user" pr) ≡ true)
      × (has_text "full_name" repository (sub_fields "repo" (sub_fields "head" pr)) ≡ true)
      × (as_text (lookup "ref" (sub_fields "head" pr)) ≡ some p.branch)
      × (match_branch digit p.branch ≡ some p.version)
      × (as_int (lookup "number" pr) ≡ some p.number)
      × (as_text (lookup "html_url" pr) ≡ some p.url)

  exact-eq-some :
      (s v : String) (o : Option Version)
      → parse_version digit s ≡ o
      → exact digit s o ≡ some v
      → (w : Version) × (parse_version digit v ≡ some w)
  unfolding exact
  exact-eq-some s v none e h = elim (some-none h) [ ]
  exact-eq-some s v (some w) e h = (w, subst (λ x. parse_version digit x ≡ some w) (some_inj h) e)

  exact_version-eq-some :
      (s v : String)
      → exact_version digit s ≡ some v
      → (w : Version) × (parse_version digit v ≡ some w)
  unfolding exact_version
  exact_version-eq-some s v h = exact-eq-some s v (parse_version digit s) refl h

  match_branch-Exact :
      (b v : String)
      → match_branch digit b ≡ some v
      → (w : Version) × (parse_version digit v ≡ some w)
  unfolding match_branch
  match_branch-Exact b v h = elim (Option-cases (after_prefix rollout_prefix b)) [
    | inl e ↦ elim (some-none (rw e at h)) [ ]
    | inr (s, e) ↦ exact_version-eq-some s v (rw e at h)
  ]

  match_ref-eq-some :
      (o : Option String) (b v : String)
      → match_ref digit o ≡ some (b, v)
      → (o ≡ some b) × (match_branch digit b ≡ some v)
  unfolding match_ref
  match_ref-eq-some none b v h = elim (some-none h) [ ]
  match_ref-eq-some (some c) b v h = elim (Option-cases (match_branch digit c)) [
    | inl e ↦ elim (some-none (rw e at h)) [ ]
    | inr (w, e) ↦
        subst (λ t. (some c ≡ some (t.0)) × (match_branch digit (t.0) ≡ some (t.1)))
          (some_inj (rw e at h)) (refl, e)
  ]

  crosses-parts :
      (pr : Fields)
      → crosses repository base_branch expected_bot pr ≡ true
      → (has_text "ref" base_branch (sub_fields "base" pr) ≡ true)
        × (has_text "login" expected_bot (sub_fields "user" pr) ≡ true)
        × (has_text "full_name" repository (sub_fields "repo" (sub_fields "head" pr)) ≡ true)
  unfolding crosses
  crosses-parts pr c = all_three _ _ _ c

  matched-Is :
      (pr : Fields) (p : RolloutPr) (o : Option (String × String))
      → match_ref digit (as_text (lookup "ref" (sub_fields "head" pr))) ≡ o
      → matched digit repository base_branch expected_bot pr o ≡ some p
      → Is p pr
  unfolding matched
  matched-Is pr p none e h = elim (some-none h) [ ]
  matched-Is pr p (some (b, v)) e h =
      elim (Bool-cases (crosses repository base_branch expected_bot pr)) [
        | inr c ↦ elim (some-none (rw c at h)) [ ]
        | inl c ↦
            let (r, m) = match_ref-eq-some _ b v e in
            let (eb, ev, en, eu) = described-eq-some b v _ _ _ p (rw c at h) in
            let (based, authored, owned) = crosses-parts pr c in
            (
              based,
              authored,
              owned,
              r ∙ ap some eb,
              subst (λ x. match_branch digit x ≡ some p.version) eb (m ∙ ap some ev),
              en,
              eu,
            )
      ]

  eligible_pr-Is :
      (pr : Fields) (p : RolloutPr)
      → eligible_pr digit repository base_branch expected_bot pr ≡ some p
      → Is p pr
  unfolding eligible_pr
  eligible_pr-Is pr p h = matched-Is pr p _ refl h

  -- Some pull request of the list is `p`.
  abbrev pub From : List Fields → RolloutPr → Type 0
  From prs p = Some (Is p) prs × Exact digit p

  All-collect_eligible :
      (P : RolloutPr → Type 0) (prs : List Fields)
      → ((pr : Fields) (p : RolloutPr)
          → eligible_pr digit repository base_branch expected_bot pr ≡ some p
          → Some (λ q. q ≡ pr) prs
          → P p)
      → All P (collect_eligible digit repository base_branch expected_bot prs)
  unfolding collect_eligible
  All-collect_eligible P [] f = tt
  All-collect_eligible P (pr ∷ prs) f =
      go (All-collect_eligible P prs (λ q p e m. f q p e (inr m)))
        (eligible_pr digit repository base_branch expected_bot pr) refl
    where
      go :
          All P (collect_eligible digit repository base_branch expected_bot prs)
          → (o : Option RolloutPr) → eligible_pr digit repository base_branch expected_bot pr ≡ o
          → All P (elim o [
            | none ↦ collect_eligible digit repository base_branch expected_bot prs
            | some p ↦ p ∷ collect_eligible digit repository base_branch expected_bot prs
          ])
      go a none e = a
      go a (some p) e = (f pr p e (inl refl), a)

  Some-Is :
      (prs : List Fields) (pr : Fields) (p : RolloutPr)
      → Is p pr
      → Some (λ q. q ≡ pr) prs
      → Some (Is p) prs
  Some-Is [] pr p h m = elim m [ ]
  Some-Is (q ∷ qs) pr p h (inl e) = inl (subst (Is p) (sym e) h)
  Some-Is (q ∷ qs) pr p h (inr m) = inr (Some-Is qs pr p h m)

  collect_eligible-From :
      (prs : List Fields)
      → All (From prs) (collect_eligible digit repository base_branch expected_bot prs)
  collect_eligible-From prs =
      All-collect_eligible (From prs) prs (λ pr p e m. from pr p (eligible_pr-Is pr p e) m)
    where
      from : (pr : Fields) (p : RolloutPr) → Is p pr → Some (λ q. q ≡ pr) prs → From prs p
      from pr p i m = (Some-Is prs pr p i m, match_branch-Exact p.branch p.version i.4)

  pub All-Exact :
      (prs : List Fields) (ps : List RolloutPr) → All (From prs) ps → All (Exact digit) ps
  All-Exact prs [] a = tt
  All-Exact prs (p ∷ ps) (f, a) = (f.1, All-Exact prs ps a)

  -- Each eligible pull request is one of GitHub's answer with the base branch, the author, the head's
  -- repository and the reserved branch asked for, and its version parses. The list ascends by version and
  -- number.
  pub eligible_rollout_prs_trusted :
      (prs : List Fields)
      → All (From prs) (eligible_rollout_prs digit repository base_branch expected_bot prs)
        × Ascending digit (eligible_rollout_prs digit repository base_branch expected_bot prs)
  unfolding eligible_rollout_prs
  eligible_rollout_prs_trusted prs =
      let c = collect_eligible-From prs in
      (All-sort_prs digit (From prs) _ c, Ascending-sort_prs digit _ (All-Exact prs _ c))
